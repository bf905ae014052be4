-- ===== src/Queue/Faults.antt =====
-- What holds of the store after a Redis call, whether it was answered, refused, or its reply lost.
use kernexys.Prelude.{List, [], ◌∷◌}
use kernexys.Queue.Effects.{AsyncQueueError, Fault, answered, refused, lost, Action, call, ◌>>=◌}

abbrev pub after : {S A : Type 0} → Action S A → S → List Fault → S
after m s faults = (m (record { store = s; faults = faults })).1.store

module _ {S A : Type 0} (P : S → Type 0) (x : AsyncQueueError) where
  pub call_rule :
      (f : S → A × S) (s : S) (faults : List Fault)
      → P s
      → P (f s).1
      → P (after (call x f) s faults)
  call_rule f s [] v w = w
  call_rule f s (answered ∷ rest) v w = w
  call_rule f s (refused ∷ rest) v w = v
  call_rule f s (lost ∷ rest) v w = w

module _ {S A B : Type 0} (P : S → Type 0) (x : AsyncQueueError) where
  -- what follows an answered call may use what the call returned
  pub bind_rule :
      (f : S → A × S) (k : A → Action S B) (s : S) (faults : List Fault)
      → P s
      → P (f s).1
      → ((rest : List Fault) → P (after (k (f s).0) (f s).1 rest))
      → P (after (call x f >>= k) s faults)
  bind_rule f k s [] v w g = g []
  bind_rule f k s (answered ∷ rest) v w g = g rest
  bind_rule f k s (refused ∷ rest) v w g = v
  bind_rule f k s (lost ∷ rest) v w g = w
