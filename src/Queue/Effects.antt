-- ===== src/Queue/Effects.antt =====
-- Actions over the store that may raise AsyncQueueError. A schedule of faults says how the calls
-- to come are answered; once it is used up, every call is answered.
use kernexys.Prelude.{◌≡◌, ap, List, [], ◌∷◌, Result, ok, err}

-- `refused`: the call fails and was not executed; `lost`: it was executed, and its reply is lost.
pub data Fault : Type 0 where
  answered refused lost : Fault

-- "Redis is unavailable", and claim's "Redis queue state is unavailable or invalid"
pub data AsyncQueueError : Type 0 where
  unavailable invalid : AsyncQueueError

pub record World (S : Type 0) : Type 0 where
  pub store : S
  pub faults : List Fault

abbrev pub Action : Type 0 → Type 0 → Type 0
Action S A = World S → Result AsyncQueueError A × World S

module _ {S A : Type 0} where
  abbrev pub pure : A → Action S A
  pure a w = (ok a, w)

  abbrev pub raise : AsyncQueueError → Action S A
  raise e w = (err e, w)

  abbrev pub settle :
      AsyncQueueError → Fault → (S → A × S) → S → List Fault → Result AsyncQueueError A × World S
  settle e answered f s rest = (ok (f s).0, record { store = (f s).1; faults = rest })
  settle e refused f s rest = (err e, record { store = s; faults = rest })
  settle e lost f s rest = (err e, record { store = (f s).1; faults = rest })

  abbrev pub call_with :
      AsyncQueueError → List Fault → (S → A × S) → S → Result AsyncQueueError A × World S
  call_with e [] f s = settle e answered f s []
  call_with e (x ∷ rest) f s = settle e x f s rest

  -- One Redis call, atomic on the server; its RedisError is raised as `e`.
  abbrev pub call : AsyncQueueError → (S → A × S) → Action S A
  call e f w = call_with e w.faults f w.store

module _ {S A B : Type 0} where
  abbrev pub continue : Result AsyncQueueError A → (A → Action S B) → Action S B
  continue (ok a) f w = f a w
  continue (err e) f w = (err e, w)

  infixl 10 ◌>>=◌ ◌>>◌
  abbrev pub ◌>>=◌ : Action S A → (A → Action S B) → Action S B
  ◌>>=◌ m f w = let (r, w') = m w in continue r f w'

  abbrev pub ◌>>◌ : Action S A → Action S B → Action S B
  m >> n = m >>= λ _. n

abbrev value_or : {A : Type 0} → A → Result AsyncQueueError A → A
value_or a (ok b) = b
value_or a (err e) = a

module _ {S A : Type 0} where
  -- Two runs of one action that return agree.
  pub ok-injective :
      {a b : A} {v w : World S}
      → ◌≡◌ {A = Result AsyncQueueError A × World S} (ok a, v) (ok b, w)
      → (a ≡ b) × (v ≡ w)
  ok-injective {a} h = (
    ap (λ (x : Result AsyncQueueError A × World S). value_or a x.0) h,
    ap (λ (x : Result AsyncQueueError A × World S). x.1) h,
  )
