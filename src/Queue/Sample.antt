-- ===== src/Queue/Sample.antt =====
-- A clock, a configuration and a store with one queued job, in memory.
use Prim.Native.String.{◌∷◌ as char, count as length}
use text.Mathlib.TextLemmas.{length-cons}
use kernexys.Prelude.{ℕ, zero, suc, ◌≡◌, refl, ap, ◌∙◌, String, some, arith}
use kernexys.Json.{Json, str, obj, field, end, Fields}
use kernexys.Json.Sample.{sample}
use kernexys.Redis.Memory.{memory, empty, Memory}
use kernexys.Queue.{Config, enqueue}
use kernexys.Queue.Scripts.{Env, Clock}
use kernexys.Queue.Reading.{calm}

-- A text of n characters stands for the time n.
abbrev pub unary : ℕ → String
unary zero = ""
unary (suc n) = char "i" (unary n)

pub count-unary : (n : ℕ) → length (unary n) ≡ n
count-unary zero = refl
count-unary (suc n) = length-cons "i" (unary n) ∙ ap suc (count-unary n)

abbrev pub clock : Clock
clock = record {
  second = 1;
  repr = unary;
  tonumber = λ t. some (length t);
  second_pos = omega arith;
  tonumber-repr = λ t. ap some (count-unary t);
}

abbrev pub env : Env
env = record { redis = memory; codec = sample; clock = clock }

abbrev pub config : Config
config = record { capacity = 2; job_ttl_seconds = 60; recovery_lock_seconds = 30 }

abbrev pub payload_of : String → Fields
payload_of text = field "endpoint" (str "http://m:80") (field "text" (str text) end)

abbrev pub good : Json
good = obj (payload_of "good")

abbrev pub bad : Json
bad = obj (payload_of "bad")

-- "a" is queued.
abbrev pub one_job : Memory
one_job = (enqueue env config "a" good (calm empty)).1.store
