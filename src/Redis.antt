-- ===== src/Redis.antt =====
-- The Redis server, which is not part of the repository: an interface for the commands that
-- app/async_queue.py sends, and their documented effect on what a client can read.
pub mod View
pub mod Memory
pub mod Laws
use kernexys.Prelude.{ℕ, ◌<◌, String, ◌≡◌, Bool, List, Option, length, zero}
use kernexys.Prelude.Dict.{Dict, lookup, nonempty}

abbrev pub observe :
    {S : Type 0}
    → (String → S → Dict String)
    → (String → S → List String)
    → (String → S → Option String)
    → S
    → View.View
observe hgetall lrange get s = record {
  hash = λ k f. lookup f (hgetall k s);
  list = λ k. lrange k s;
  text = λ k. get k s;
}

-- Each key is used with the commands of one type of value only.
pub record Redis : Type 1 where
  pub Store : Type 0
  -- HGETALL key, LRANGE key 0 -1, GET key: a missing key reads as empty
  pub hgetall : String → Store → Dict String
  pub lrange : String → Store → List String
  pub get : String → Store → Option String
  -- EXISTS key of a hash, LLEN key
  pub exists : String → Store → Bool
  pub llen : String → Store → ℕ
  -- HSET key field value ..., HDEL key field, EXPIRE key seconds
  pub hset : String → Dict String → Store → Store
  pub hdel : String → String → Store → Store
  pub expire : String → ℕ → Store → Store
  -- RPUSH key value, LREM key 1 value, BLMOVE source target LEFT RIGHT after its wait
  pub rpush : String → String → Store → Store
  pub lrem : String → String → Store → ℕ × Store
  pub blmove : String → String → Store → Option String × Store
  -- SET key value NX EX seconds
  pub set_nx : String → String → ℕ → Store → Bool × Store
  -- the key's time to live runs out
  pub lapse : String → Store → Store
  pub exists-hgetall : (k : String) (s : Store) → exists k s ≡ nonempty (hgetall k s)
  pub llen-lrange : (k : String) (s : Store) → llen k s ≡ length (lrange k s)
  pub observe-hset :
      (k : String) (m : Dict String) (s : Store)
      → observe hgetall lrange get (hset k m s) ≡ View.hset k m (observe hgetall lrange get s)
  pub observe-hdel :
      (k f : String) (s : Store)
      → observe hgetall lrange get (hdel k f s) ≡ View.hdel k f (observe hgetall lrange get s)
  pub observe-expire :
      (k : String) (n : ℕ) (s : Store)
      → 0 < n
      → observe hgetall lrange get (expire k n s) ≡ observe hgetall lrange get s
  pub observe-rpush :
      (k x : String) (s : Store)
      → observe hgetall lrange get (rpush k x s) ≡ View.rpush k x (observe hgetall lrange get s)
  pub lrem-count :
      (k x : String) (s : Store)
      → (lrem k x s).0 ≡ View.lrem_count k x (observe hgetall lrange get s)
  pub observe-lrem :
      (k x : String) (s : Store)
      → observe hgetall lrange get (lrem k x s).1 ≡ View.lrem k x (observe hgetall lrange get s)
  pub blmove-head : (a b : String) (s : Store) → (blmove a b s).0 ≡ View.first (lrange a s)
  pub observe-blmove :
      (a b : String) (s : Store)
      → observe hgetall lrange get (blmove a b s).1 ≡ View.blmove a b (observe hgetall lrange get s)
  pub set_nx-free :
      (k x : String) (n : ℕ) (s : Store)
      → (set_nx k x n s).0 ≡ View.is_free k (observe hgetall lrange get s)
  pub observe-set_nx :
      (k x : String) (n : ℕ) (s : Store)
      → 0 < n
      → observe hgetall lrange get (set_nx k x n s).1
        ≡ View.set_nx k x (observe hgetall lrange get s)
  pub observe-lapse :
      (k : String) (s : Store)
      → observe hgetall lrange get (lapse k s) ≡ View.lapse k (observe hgetall lrange get s)
