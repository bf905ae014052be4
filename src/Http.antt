-- ===== src/Http.antt =====
-- The HTTP middleware of app/middleware.py and runtime/runtime_app/middleware.py: the ASGI messages
-- and scope that they read. Texts and bodies are lists of code points or bytes.
pub mod Integer
pub mod Limit
pub mod Replay
pub mod Bounded
pub mod Forwarding
pub mod RequestId
pub mod Correlation
pub mod Inference
mod Tests
use kernexys.Prelude.{ℕ, String, Bool, Option, none, some, List, [], ◌∷◌, length, ◌+◌}

-- An ASGI receive message: http.disconnect, or http.request with its optional body and more_body.
pub data Message : Type 0 where
  disconnect : Message
  request : Option (List ℕ) → Option Bool → Message

pub record Scope : Type 0 where
  pub kind : String
  pub headers : List (List ℕ × List ℕ)
