-- ===== src/Redis/View.antt =====
-- What a client can read of a Redis store, and how the documented commands change it.
use kernexys.Prelude.{
  ℕ, String, Bool, true, false, Option, none, some, List, [], ◌∷◌, ◌++◌, ◌==◌, ◌&&◌, if◌then◌else◌,
  any, remove_first,
}
use kernexys.Prelude.Dict.{Dict, lookup, or_else}

pub record View : Type 0 where
  pub hash : String → String → Option String
  pub list : String → List String
  pub text : String → Option String

abbrev pub hset : String → Dict String → View → View
hset k m v = record v {
  hash = λ j f. if k == j then or_else (lookup f m) (v.hash j f) else v.hash j f;
}

abbrev pub hdel : String → String → View → View
hdel k g v = record v { hash = λ j f. if (k == j) && (g == f) then none else v.hash j f }

abbrev pub set_list : String → List String → View → View
set_list k l v = record v { list = λ j. if k == j then l else v.list j }

abbrev pub rpush : String → String → View → View
rpush k x v = set_list k (v.list k ++ x ∷ []) v

abbrev pub lrem_count : String → String → View → ℕ
lrem_count k x v = if any (λ y. y == x) (v.list k) then 1 else 0

abbrev pub lrem : String → String → View → View
lrem k x v = set_list k (remove_first x (v.list k)) v

abbrev pub first : List String → Option String
first [] = none
first (x ∷ l) = some x

abbrev pub move_head : String → String → List String → View → View
move_head a b [] v = v
move_head a b (x ∷ l) v = rpush b x (set_list a l v)

abbrev pub blmove : String → String → View → View
blmove a b v = move_head a b (v.list a) v

abbrev free : Option String → Bool
free none = true
free (some x) = false

abbrev pub is_free : String → View → Bool
is_free k v = free (v.text k)

abbrev pub set_nx : String → String → View → View
set_nx k x v = record v { text = λ j. if k == j then or_else (v.text j) (some x) else v.text j }

abbrev pub lapse : String → View → View
lapse k v = record {
  hash = λ j f. if k == j then none else v.hash j f;
  list = λ j. if k == j then [] else v.list j;
  text = λ j. if k == j then none else v.text j;
}
