-- ===== src/Hashing.antt =====
-- service/hash.service.ts.
use authora.Prelude.{String}
use authora.Exec.{pure, ◌>>=◌}
use authora.World.{Platform, Action, draw}

module _ {p : Platform} where
  unfoldable pub hash : String → Action p String
  hash value = do
    salt ← draw
    pure (
        p.argon2_hash p.authora.hash_memory_cost p.authora.hash_time_cost p.authora.hash_parallelism
          salt value)
