-- ===== src/Lifespan.antt =====
-- create_app.lifespan of app/main.py: what it opens, serves and releases. The calls of the libraries
-- are their outcomes, and the result comes with the calls in order.
pub mod Released
mod Tests
use kernexys.Prelude.{
  Bool, true, false, ◌&&◌, Option, none, some, List, [], ◌∷◌, ◌++◌, Result, ok, err, if◌then◌else◌,
}

pub data Part : Type 0 where
  gateway : Part
  queue : Part

pub data Call : Type 0 where
  opened : Part → Call
  -- the application serves requests, at the `yield`
  served : Call
  closed : Part → Call
  disposed_engine : Call

-- the parameters of create_app and two of its settings
pub record Given (Engine Gateway Queue : Type 0) : Type 0 where
  pub engine : Option Engine
  pub deployment_gateway : Option Gateway
  pub async_queue : Option Queue
  pub kubernetes_enabled : Bool
  pub async_inference_enabled : Bool

-- how each call ends, and what is raised at the `yield`
pub record Outcomes (E Gateway Queue : Type 0) : Type 0 where
  pub session_factory : Result E (Unit {0})
  pub create_gateway : Result E Gateway
  pub create_queue : Result E Queue
  pub body : Result E (Unit {0})
  pub close_queue : Result E (Unit {0})
  pub close_gateway : Result E (Unit {0})
  pub dispose : Result E (Unit {0})

abbrev pub Traced : Type 0 → Type 0 → Type 0
Traced E A = Result E A × List Call

abbrev missing : {A : Type 0} → Option A → Bool
missing none = true
missing (some a) = false

-- if it is None and enabled: create it
abbrev pub acquire : {E A : Type 0} → Part → Option A → Bool → Result E A → Traced E (Option A)
acquire part (some a) enabled create = (ok (some a), [])
acquire part none false create = (ok none, [])
acquire part none true (ok a) = (ok (some a), opened part ∷ [])
acquire part none true (err e) = (err e, [])

-- if it is owned and not None: close it
abbrev pub release :
    {E A : Type 0} → Part → Bool → Option A → Result E (Unit {0}) → Traced E (Unit {0})
release part true (some a) close = (close, closed part ∷ [])
release part true none close = (ok tt, [])
release part false resource close = (ok tt, [])

abbrev pub last_raised :
    {E : Type 0} → Result E (Unit {0}) → Result E (Unit {0}) → Result E (Unit {0})
last_raised r (err e) = err e
last_raised r (ok u) = r

-- try: first finally: last
abbrev pub try_finally :
    {E : Type 0} → Traced E (Unit {0}) → Traced E (Unit {0}) → Traced E (Unit {0})
try_finally first last = (last_raised first.0 last.0, first.1 ++ last.1)

module _ {E Engine Gateway Queue : Type 0} (g : Given Engine Gateway Queue)
    (o : Outcomes E Gateway Queue) where
  -- the inner and the outer `finally` blocks, with the values that gateway and queue have by then
  abbrev pub clean_up : Option Gateway → Option Queue → Traced E (Unit {0})
  clean_up gateway_now queue_now =
      let owns_gateway = missing g.deployment_gateway && g.kubernetes_enabled in
      let owns_queue = missing g.async_queue && g.async_inference_enabled in
      try_finally
        (try_finally (release queue owns_queue queue_now o.close_queue)
          (release gateway owns_gateway gateway_now o.close_gateway))
        (
          if missing g.engine then o.dispose else ok tt,
          if missing g.engine then disposed_engine ∷ [] else [],
        )

  abbrev pub with_queue : Option Gateway → Traced E (Option Queue) → Traced E (Unit {0})
  with_queue gateway_now (err e, t) = try_finally (err e, t) (clean_up gateway_now g.async_queue)
  with_queue gateway_now (ok queue_now, t) =
      try_finally (o.body, t ++ served ∷ []) (clean_up gateway_now queue_now)

  abbrev pub after : {A : Type 0} → List Call → Traced E A → Traced E A
  after t (r, t') = (r, t ++ t')

  abbrev pub with_gateway : Traced E (Option Gateway) → Traced E (Unit {0})
  with_gateway (err e, t) = try_finally (err e, t) (clean_up g.deployment_gateway g.async_queue)
  with_gateway (ok gateway_now, t) = after t (
      with_queue gateway_now (acquire queue g.async_queue g.async_inference_enabled o.create_queue))

  abbrev pub guarded : Result E (Unit {0}) → Traced E (Unit {0})
  guarded (err e) = (err e, [])
  guarded (ok u) =
      with_gateway (acquire gateway g.deployment_gateway g.kubernetes_enabled o.create_gateway)

  -- the session factory is made before the `try`
  unfoldable pub lifespan : Traced E (Unit {0})
  lifespan = guarded o.session_factory
