-- ===== src/Lifespan/Tests.antt =====
-- A run whose queue cannot be created.
use kernexys.Prelude.{ℕ, String, true, none, [], ◌∷◌, ◌≡◌, refl, ok, err}
use kernexys.Lifespan.{Part, Call, Given, Outcomes, lifespan}
use kernexys.Lifespan.Released.{IsReleased, lifespan-IsReleased}

abbrev given : Given ℕ ℕ ℕ
given = record {
  engine = none;
  deployment_gateway = none;
  async_queue = none;
  kubernetes_enabled = true;
  async_inference_enabled = true;
}

abbrev outcomes : Outcomes String ℕ ℕ
outcomes = record {
  session_factory = ok tt;
  create_gateway = ok 1;
  create_queue = err "invalid URL";
  body = ok tt;
  close_queue = ok tt;
  close_gateway = err "connection lost";
  dispose = ok tt;
}

-- The gateway is closed and the engine disposed, though closing fails.
failed_start : lifespan given outcomes ≡ (
  err "connection lost",
  Call.opened Part.gateway ∷ Call.closed Part.gateway ∷ Call.disposed_engine ∷ [],
)
unfolding lifespan
failed_start = refl

lifespan-IsReleased_example : IsReleased given outcomes (lifespan given outcomes)
lifespan-IsReleased_example = lifespan-IsReleased given outcomes refl
