-- ===== src/Http/Replay.antt =====
-- The receive callables of the two body-limit middlewares, and what an application reads by them.
use kernexys.Prelude.{ℕ, false, Option, none, some, List, [], ◌∷◌}
use kernexys.Http.{Message, request, Scope}
use kernexys.Http.Limit.{Outcome, limit}

-- `replayed` is what the iterator still holds, `downstream` what the server delivers.
pub record Receive : Type 0 where
  pub replayed : List Message
  pub downstream : List Message

-- _replay of app/middleware.py
unfoldable pub replay : List Message → List Message → Receive
replay messages downstream = record { replayed = messages; downstream = downstream }

unfoldable pub raw : List Message → Receive
raw messages = record { replayed = []; downstream = messages }

abbrev pub from_server : List Message → Option Message × Receive
from_server [] = (none, record { replayed = []; downstream = [] })
from_server (m ∷ rest) = (some m, record { replayed = []; downstream = rest })

abbrev pub from_iterator : List Message → List Message → Option Message × Receive
from_iterator [] downstream = from_server downstream
from_iterator (m ∷ rest) downstream = (some m, record { replayed = rest; downstream = downstream })

-- one call of `receive`; `none` waits for the server
unfoldable pub receive : Receive → Option Message × Receive
receive r = from_iterator r.replayed r.downstream

-- RequestBodyLimitMiddleware.__call__ of app/middleware.py
unfoldable pub app_limit : ℕ → Scope → List Message → Outcome Receive
unfolding limit replay raw
app_limit = limit raw replay

-- The runtime's replay goes on with empty requests; its raw receive is the server's.
pub data RuntimeReceive : Type 0 where
  server : List Message → RuntimeReceive
  replaying : List Message → RuntimeReceive

-- _replay of runtime/runtime_app/middleware.py
unfoldable pub runtime_replay : List Message → List Message → RuntimeReceive
runtime_replay messages downstream = replaying messages

unfoldable pub runtime_receive : RuntimeReceive → Option Message × RuntimeReceive
runtime_receive (server []) = (none, server [])
runtime_receive (server (m ∷ rest)) = (some m, server rest)
runtime_receive (replaying []) = (some (request (some []) (some false)), replaying [])
runtime_receive (replaying (m ∷ rest)) = (some m, replaying rest)

-- RequestBodyLimitMiddleware.__call__ of runtime/runtime_app/middleware.py
unfoldable pub runtime_limit : ℕ → Scope → List Message → Outcome RuntimeReceive
unfolding limit runtime_replay
runtime_limit = limit server runtime_replay
