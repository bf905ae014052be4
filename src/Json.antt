-- ===== src/Json.antt =====
-- The values that json.loads returns, and the codec of Python's json module as an interface: what
-- the modules below use of it, and what they rely on.
pub mod Sample
use kernexys.Prelude.{
  ℕ, String, ◌≡◌, Bool, true, false, ◌&&◌, Option, none, some, ◌==◌, if◌then◌else◌,
}

mutual
  pub data Json : Type 0 where
    null : Json
    bool : Bool → Json
    int : ℕ → Json
    -- -(n + 1)
    negative : ℕ → Json
    -- a number that is no integer, by its text
    real : String → Json
    str : String → Json
    arr : Items → Json
    obj : Fields → Json

  pub data Items : Type 0 where
    nil : Items
    cons : Json → Items → Items

  pub data Fields : Type 0 where
    end : Fields
    field : String → Json → Fields → Fields

-- d.get(key) of a dict
abbrev pub member : String → Fields → Option Json
member k end = none
member k (field j v d) = if j == k then some v else member k d

-- A dict whose values are all texts.
abbrev pub IsFlat : Fields → Type 0
IsFlat end = Unit {0}
IsFlat (field k (str s) d) = IsFlat d
IsFlat (field k v d) = ⊥

pub record Codec : Type 0 where
  -- json.dumps(value, separators=(",", ":"), sort_keys=True)
  pub dumps : Json → String
  -- json.loads(text), `none` for a JSONDecodeError
  pub loads : String → Option Json
  -- A flat dict comes back with the same entries; `sort_keys` may have reordered them.
  pub loads-dumps :
      (d : Fields)
      → IsFlat d
      → (c : Fields) × (loads (dumps (obj d)) ≡ some (obj c))
        × ((k : String) → member k c ≡ member k d)
