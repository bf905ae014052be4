-- ===== src/Redis/Laws.antt =====
-- The documented effects, read one key at a time.
use kernexys.Prelude.{
  ℕ, ◌<◌, String, ◌≡◌, ap, ◌∙◌, refl, sym, true, false, Option, none, some, List, [], ◌∷◌, ◌++◌,
  ◌==◌, ◌&&◌, eq_refl, if◌then◌else◌, remove_first, arith,
}
use kernexys.Prelude.Dict.{Dict, lookup, or_else, nonempty}
use kernexys.Redis.{Redis, observe}
use kernexys.Redis.View

pub nonempty_of_lookup :
    (f : String) (d : Dict String) {x : String} → lookup f d ≡ some x → nonempty d ≡ true
nonempty_of_lookup f [] h = ground arith
nonempty_of_lookup f (p ∷ d) h = refl

pub lookup_of_empty : (f : String) (d : Dict String) → nonempty d ≡ false → lookup f d ≡ none
lookup_of_empty f [] h = refl
lookup_of_empty f (p ∷ d) h = ground arith

-- Dicts with the same entries are empty together.
nonempty_ext :
    (c d : Dict String) → ((f : String) → lookup f c ≡ lookup f d) → nonempty c ≡ nonempty d
nonempty_ext [] [] h = refl
nonempty_ext [] ((f, x) ∷ d) h = ground (arith, h f, eq_refl f)
nonempty_ext ((f, x) ∷ c) [] h = ground (arith, h f, eq_refl f)
nonempty_ext (p ∷ c) (r ∷ d) h = refl

module _ (R : Redis) where
  abbrev pub view : R.Store → View.View
  view = observe R.hgetall R.lrange R.get

  abbrev pub field : String → String → R.Store → Option String
  field k f s = lookup f (R.hgetall k s)

  pub field-hset :
      (j f k : String) (m : Dict String) (s : R.Store)
      → field j f (R.hset k m s)
        ≡ (if k == j then or_else (lookup f m) (field j f s) else field j f s)
  field-hset j f k m s = ap (λ v. v.hash j f) (R.observe-hset k m s)

  pub field-hdel :
      (j f k g : String) (s : R.Store)
      → field j f (R.hdel k g s) ≡ (if (k == j) && (g == f) then none else field j f s)
  field-hdel j f k g s = ap (λ v. v.hash j f) (R.observe-hdel k g s)

  pub field-expire :
      (j f k : String) (n : ℕ) (s : R.Store) → 0 < n → field j f (R.expire k n s) ≡ field j f s
  field-expire j f k n s h = ap (λ v. v.hash j f) (R.observe-expire k n s h)

  pub field-rpush : (j f k x : String) (s : R.Store) → field j f (R.rpush k x s) ≡ field j f s
  field-rpush j f k x s = ap (λ v. v.hash j f) (R.observe-rpush k x s)

  pub field-lrem : (j f k x : String) (s : R.Store) → field j f (R.lrem k x s).1 ≡ field j f s
  field-lrem j f k x s = ap (λ v. v.hash j f) (R.observe-lrem k x s)

  hash-move_head :
      (a b : String) (l : List String) (v : View.View) → (View.move_head a b l v).hash ≡ v.hash
  hash-move_head a b [] v = refl
  hash-move_head a b (x ∷ l) v = refl

  pub field-blmove : (j f a b : String) (s : R.Store) → field j f (R.blmove a b s).1 ≡ field j f s
  field-blmove j f a b s =
      ap (λ v. v.hash j f) (R.observe-blmove a b s)
      ∙ ap (λ h. h j f) (hash-move_head a b (R.lrange a s) (view s))

  pub field-set_nx :
      (j f k x : String) (n : ℕ) (s : R.Store)
      → 0 < n
      → field j f (R.set_nx k x n s).1 ≡ field j f s
  field-set_nx j f k x n s h = ap (λ v. v.hash j f) (R.observe-set_nx k x n s h)

  pub lrange-hset :
      (j k : String) (m : Dict String) (s : R.Store) → R.lrange j (R.hset k m s) ≡ R.lrange j s
  lrange-hset j k m s = ap (λ v. v.list j) (R.observe-hset k m s)

  pub lrange-hdel : (j k g : String) (s : R.Store) → R.lrange j (R.hdel k g s) ≡ R.lrange j s
  lrange-hdel j k g s = ap (λ v. v.list j) (R.observe-hdel k g s)

  pub lrange-expire :
      (j k : String) (n : ℕ) (s : R.Store) → 0 < n → R.lrange j (R.expire k n s) ≡ R.lrange j s
  lrange-expire j k n s h = ap (λ v. v.list j) (R.observe-expire k n s h)

  pub lrange-rpush :
      (j k x : String) (s : R.Store)
      → R.lrange j (R.rpush k x s) ≡ (if k == j then R.lrange k s ++ x ∷ [] else R.lrange j s)
  lrange-rpush j k x s = ap (λ v. v.list j) (R.observe-rpush k x s)

  pub lrange-lrem :
      (j k x : String) (s : R.Store)
      → R.lrange j (R.lrem k x s).1
        ≡ (if k == j then remove_first x (R.lrange k s) else R.lrange j s)
  lrange-lrem j k x s = ap (λ v. v.list j) (R.observe-lrem k x s)

  pub lrange-blmove :
      (j a b : String) (s : R.Store)
      → R.lrange j (R.blmove a b s).1 ≡ (View.move_head a b (R.lrange a s) (view s)).list j
  lrange-blmove j a b s = ap (λ v. v.list j) (R.observe-blmove a b s)

  pub lrange-set_nx :
      (j k x : String) (n : ℕ) (s : R.Store)
      → 0 < n
      → R.lrange j (R.set_nx k x n s).1 ≡ R.lrange j s
  lrange-set_nx j k x n s h = ap (λ v. v.list j) (R.observe-set_nx k x n s h)

  -- A hash with a field exists, and one that does not exist has no field.
  pub exists_of_field :
      (k f : String) (s : R.Store) {x : String} → field k f s ≡ some x → R.exists k s ≡ true
  exists_of_field k f s h = R.exists-hgetall k s ∙ nonempty_of_lookup f (R.hgetall k s) h

  pub field_of_missing : (k f : String) (s : R.Store) → R.exists k s ≡ false → field k f s ≡ none
  field_of_missing k f s h = lookup_of_empty f (R.hgetall k s) (sym (R.exists-hgetall k s) ∙ h)

  pub exists_ext :
      (k : String) (s s' : R.Store)
      → ((f : String) → field k f s ≡ field k f s')
      → R.exists k s ≡ R.exists k s'
  exists_ext k s s' h =
      R.exists-hgetall k s
      ∙ nonempty_ext (R.hgetall k s) (R.hgetall k s') h
      ∙ sym (R.exists-hgetall k s')
