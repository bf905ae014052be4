-- ===== src/Lifespan/Released.antt =====
-- What the lifespan opens it closes, on every path.
use mathlib.Core.Path.{subst}
use kernexys.Prelude.{
  Bool, true, false, not, ◌&&◌, ◌||◌, Option, none, some, List, [], ◌∷◌, ◌++◌, ◌≡◌, refl, sym,
  Result, ok, err, if◌then◌else◌, map,
}
use kernexys.Lifespan.{Part, Call, Given, Outcomes, Traced, last_raised, missing, guarded, lifespan}
use Call.{opened, served, closed, disposed_engine}

abbrev closing : List Part → List Call
closing [] = []
closing (p ∷ ps) = closing ps ++ closed p ∷ []

abbrev is_ok : {E A : Type 0} → Result E A → Bool
is_ok (ok a) = true
is_ok (err e) = false

last_ok :
    {E : Type 0} (r r' : Result E (Unit {0})) → is_ok (last_raised r r') ≡ true → is_ok r ≡ true
last_ok r (ok u) h = h
last_ok r (err e) h = absurd (cc)

last_raised-err :
    {E : Type 0} (P : Type 0) (e : E) (r : Result E (Unit {0}))
    → is_ok (last_raised (err e) r) ≡ true
    → P
last_raised-err P e (ok u) h = absurd (cc)
last_raised-err P e (err x) h = absurd (cc)

module _ {A : Type 0} where
  -- whether there is a resource, or none is wanted
  abbrev available : {E : Type 0} → Option A → Bool → Result E A → Bool
  available given enabled create = not (missing given) || not enabled || is_ok create

  abbrev created : {E : Type 0} → Part → Option A → Bool → Result E A → List Part
  created part given enabled create =
      if missing given && enabled && is_ok create then part ∷ [] else []

module _ {E Engine Gateway Queue : Type 0} where
  module _ (g : Given Engine Gateway Queue) (o : Outcomes E Gateway Queue) where
    abbrev has_gateway : Bool
    has_gateway = available g.deployment_gateway g.kubernetes_enabled o.create_gateway

    -- the parts that the lifespan opens, in order
    abbrev pub parts : List Part
    parts =
        created Part.gateway g.deployment_gateway g.kubernetes_enabled o.create_gateway
        ++ (if has_gateway
            then created Part.queue g.async_queue g.async_inference_enabled o.create_queue
            else [])

    abbrev pub serves : Bool
    serves = has_gateway && available g.async_queue g.async_inference_enabled o.create_queue

    -- the calls that the lifespan should make, and what it should not hide
    abbrev pub IsReleased : Traced E (Unit {0}) → Type 0
    IsReleased (r, calls) =
        (calls
          ≡ map opened parts
            ++ (if serves then served ∷ [] else [])
            ++ closing parts
            ++ (if missing g.engine then disposed_engine ∷ [] else []))
        × (is_ok r ≡ true → (serves ≡ true) × (is_ok o.body ≡ true))

  cases :
      (engine : Option Engine) (gw : Option Gateway) (q : Option Queue) (k a : Bool)
      (o : Outcomes E Gateway Queue) (cg : Result E Gateway) (cq : Result E Queue)
      → let g : Given Engine Gateway Queue = record {
        engine = engine;
        deployment_gateway = gw;
        async_queue = q;
        kubernetes_enabled = k;
        async_inference_enabled = a;
      } in
        let o' : Outcomes E Gateway Queue = record o { create_gateway = cg; create_queue = cq } in
        IsReleased g o' (guarded g o' (ok tt))
  cases engine (some x) (some z) k a o cg cq = (refl, λ h. (refl, last_ok _ _ h))
  cases engine (some x) none k false o cg cq = (refl, λ h. (refl, last_ok _ _ h))
  cases engine (some x) none k true o cg (ok w) = (refl, λ h. (refl, last_ok _ _ h))
  cases engine (some x) none k true o cg (err e) = (refl, λ h. last_raised-err _ e _ h)
  cases engine none (some z) false a o cg cq = (refl, λ h. (refl, last_ok _ _ h))
  cases engine none none false false o cg cq = (refl, λ h. (refl, last_ok _ _ h))
  cases engine none none false true o cg (ok w) = (refl, λ h. (refl, last_ok _ _ h))
  cases engine none none false true o cg (err e) = (refl, λ h. last_raised-err _ e _ h)
  cases engine none (some z) true a o (ok y) cq = (refl, λ h. (refl, last_ok _ _ h))
  cases engine none none true false o (ok y) cq = (refl, λ h. (refl, last_ok _ _ h))
  cases engine none none true true o (ok y) (ok w) = (refl, λ h. (refl, last_ok _ _ h))
  cases engine none none true true o (ok y) (err e) = (refl, λ h. last_raised-err _ e _ h)
  cases engine none (some z) true a o (err e) cq = (refl, λ h. last_raised-err _ e _ h)
  cases engine none none true true o (err e) cq = (refl, λ h. last_raised-err _ e _ h)
  cases engine none none true false o (err e) cq = (refl, λ h. last_raised-err _ e _ h)

  -- Once the session factory is made, and however any of the calls ends: the lifespan creates
  -- the gateway and then the queue that it needs, serves exactly if it has what it needs,
  -- closes in reverse order exactly the parts it created itself, disposes of an engine that it
  -- created itself last, and ends without an exception only if it served and nothing was raised
  -- meanwhile.
  pub lifespan-IsReleased :
      (g : Given Engine Gateway Queue) (o : Outcomes E Gateway Queue)
      → o.session_factory ≡ ok tt
      → IsReleased g o (lifespan g o)
  unfolding lifespan
  lifespan-IsReleased g o h =
      subst (λ r. IsReleased g o (guarded g o r)) (sym h)
        (cases g.engine g.deployment_gateway g.async_queue g.kubernetes_enabled
          g.async_inference_enabled o o.create_gateway o.create_queue)
