-- ===== src/Redis/Memory.antt =====
-- A store in memory that behaves as documented: the interface can be met.
use mathlib.Core.Path.{fun_ext}
use kernexys.Prelude.{
  ℕ, String, ◌≡◌, refl, Bool, Option, none, some, List, [], ◌∷◌, ◌++◌, ◌==◌, ap, arith,
  if◌then◌else◌, any, remove_first, length,
}
use kernexys.Prelude.Dict.{Dict, nonempty, or_else, without, lookup-append, lookup-without}
use kernexys.Redis.{Redis, observe}
use kernexys.Redis.View

pub record Memory : Type 0 where
  pub hashes : String → Dict String
  pub lists : String → List String
  pub texts : String → Option String

abbrev pub empty : Memory
empty = record { hashes = λ k. []; lists = λ k. []; texts = λ k. none }

abbrev view : Memory → View.View
view = observe (λ k s. s.hashes k) (λ k s. s.lists k) (λ k s. s.texts k)

abbrev hset : String → Dict String → Memory → Memory
hset k m s = record s { hashes = λ j. if k == j then m ++ s.hashes j else s.hashes j }

abbrev hdel : String → String → Memory → Memory
hdel k f s = record s { hashes = λ j. if k == j then without f (s.hashes j) else s.hashes j }

abbrev set_list : String → List String → Memory → Memory
set_list k l s = record s { lists = λ j. if k == j then l else s.lists j }

abbrev rpush : String → String → Memory → Memory
rpush k x s = set_list k (s.lists k ++ x ∷ []) s

abbrev lrem : String → String → Memory → ℕ × Memory
lrem k x s =
    (if any (λ y. y == x) (s.lists k) then 1 else 0, set_list k (remove_first x (s.lists k)) s)

abbrev move_head : String → String → List String → Memory → Option String × Memory
move_head a b [] s = (none, s)
move_head a b (x ∷ l) s = (some x, rpush b x (set_list a l s))

abbrev set_nx : String → String → Memory → Bool × Memory
set_nx k x s = (
  View.is_free k (view s),
  record s { texts = λ j. if k == j then or_else (s.texts j) (some x) else s.texts j },
)

abbrev lapse : String → Memory → Memory
lapse k s = record {
  hashes = λ j. if k == j then [] else s.hashes j;
  lists = λ j. if k == j then [] else s.lists j;
  texts = λ j. if k == j then none else s.texts j;
}

hash-hset :
    (k : String) (m : Dict String) (s : Memory) (j f : String)
    → (view (hset k m s)).hash j f ≡ (View.hset k m (view s)).hash j f
hash-hset k m s j f = ground (arith, lookup-append f m (s.hashes j))

hash-hdel :
    (k g : String) (s : Memory) (j f : String)
    → (view (hdel k g s)).hash j f ≡ (View.hdel k g (view s)).hash j f
hash-hdel k g s j f = ground (arith, lookup-without g f (s.hashes j))

pub view-hset :
    (k : String) (m : Dict String) (s : Memory) → view (hset k m s) ≡ View.hset k m (view s)
view-hset k m s =
    ap (λ h. record (view s) { hash = h }) (fun_ext λ j. fun_ext λ f. hash-hset k m s j f)

pub view-hdel : (k g : String) (s : Memory) → view (hdel k g s) ≡ View.hdel k g (view s)
view-hdel k g s =
    ap (λ h. record (view s) { hash = h }) (fun_ext λ j. fun_ext λ f. hash-hdel k g s j f)

pub move_head-first :
    (a b : String) (l : List String) (s : Memory) → (move_head a b l s).0 ≡ View.first l
move_head-first a b [] s = refl
move_head-first a b (x ∷ l) s = refl

pub view-move_head :
    (a b : String) (l : List String) (s : Memory)
    → view (move_head a b l s).1 ≡ View.move_head a b l (view s)
view-move_head a b [] s = refl
view-move_head a b (x ∷ l) s = refl

pub hash-lapse :
    (k : String) (s : Memory) (j f : String)
    → (view (lapse k s)).hash j f ≡ (View.lapse k (view s)).hash j f
hash-lapse k s j f = ground arith

abbrev pub memory : Redis
memory = record {
  Store = Memory;
  hgetall = λ k s. s.hashes k;
  lrange = λ k s. s.lists k;
  get = λ k s. s.texts k;
  exists = λ k s. nonempty (s.hashes k);
  llen = λ k s. length (s.lists k);
  hset = hset;
  hdel = hdel;
  expire = λ k n s. s;
  rpush = rpush;
  lrem = lrem;
  blmove = λ a b s. move_head a b (s.lists a) s;
  set_nx = λ k x n s. set_nx k x s;
  lapse = lapse;
  exists-hgetall = λ k s. refl;
  llen-lrange = λ k s. refl;
  observe-hset = view-hset;
  observe-hdel = view-hdel;
  observe-expire = λ k n s h. refl;
  observe-rpush = λ k x s. refl;
  lrem-count = λ k x s. refl;
  observe-lrem = λ k x s. refl;
  blmove-head = λ a b s. move_head-first a b (s.lists a) s;
  observe-blmove = λ a b s. view-move_head a b (s.lists a) s;
  set_nx-free = λ k x n s. refl;
  observe-set_nx = λ k x n s h. refl;
  observe-lapse = λ k s.
      ap (λ h. record (View.lapse k (view s)) { hash = h })
        (fun_ext λ j. fun_ext λ f. hash-lapse k s j f);
}
