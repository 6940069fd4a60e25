-- ===== src/Redis.antt =====
-- Redis, which is no code of the repository, taken as a parameter: an instant is an argument of
-- each command, in milliseconds, since keys expire. `Key` has a constructor for each function of
-- config/redis-keys.ts, and `Value` one for each kind of value that the services store: a session
-- as JSON, a text, or the number under a counter.
pub mod Keys
pub mod Entries
use authora.Prelude.{
  ℕ, zero, ◌+◌, ◌-◌, ◌*◌, ◌/◌, ◌≡◌, String, Bool, Option, none, some, if◌then◌else◌, ltb,
}
use authora.Model.{AuthSession}
use Keys.{Key, same_key}

pub data Value : Type 0 where
  session : AuthSession → Value
  text : String → Value
  number : ℕ → Value

-- the number that INCR starts from
abbrev pub count_of : Option Value → ℕ
count_of (some (number n)) = n
count_of _ = 0

-- `none` if the deadline has passed
abbrev pub until : ℕ → ℕ → Option Value → Option Value
until deadline now v = if ltb now deadline then v else none

pub record Redis : Type 1 where
  pub Store : Type 0
  pub get : Store → ℕ → Key → Option Value
  -- `SET key value EX ttl`, with the time of the command
  pub set_ex : Store → ℕ → Key → Value → ℕ → Store
  -- `SET key value`, which drops the deadline of the key
  pub set : Store → Key → Value → Store
  -- `DEL key`
  pub del : Store → Key → Store
  -- `TTL key`: the seconds left, rounded; 0 stands for the replies -1 and -2 too
  pub ttl : Store → ℕ → Key → ℕ
  -- `INCR key`, which keeps the deadline of the key
  pub incr : Store → ℕ → Key → ℕ × Store
  -- `EXPIRE key ttl`
  pub expire : Store → ℕ → Key → ℕ → Store
  pub get-set_ex :
      (s : Store) (now later ttl : ℕ) (k j : Key) (v : Value)
      → get (set_ex s now k v ttl) later j
        ≡ (if same_key k j then until (now + ttl * 1000) later (some v) else get s later j)
  pub get-set :
      (s : Store) (later : ℕ) (k j : Key) (v : Value)
      → get (set s k v) later j ≡ (if same_key k j then some v else get s later j)
  pub get-del :
      (s : Store) (later : ℕ) (k j : Key)
      → get (del s k) later j ≡ (if same_key k j then none else get s later j)
  pub get-incr :
      (s : Store) (now : ℕ) (k j : Key)
      → get (incr s now k).1 now j
        ≡ (if same_key k j then some (number (count_of (get s now k) + 1)) else get s now j)
  pub incr_count : (s : Store) (now : ℕ) (k : Key) → (incr s now k).0 ≡ count_of (get s now k) + 1
  pub get-expire :
      (s : Store) (now later ttl : ℕ) (k j : Key)
      → get (expire s now k ttl) later j
        ≡ (if same_key k j then until (now + ttl * 1000) later (get s now k) else get s later j)
  pub ttl_none : (s : Store) (now : ℕ) (k : Key) → get s now k ≡ none → ttl s now k ≡ 0
  pub ttl-set_ex :
      (s : Store) (now later n : ℕ) (k j : Key) (v : Value)
      → ttl (set_ex s now k v n) later j
        ≡ (if same_key k j then (now + n * 1000 + 500 - later) / 1000 else ttl s later j)
  pub ttl-del :
      (s : Store) (later : ℕ) (k j : Key)
      → ttl (del s k) later j ≡ (if same_key k j then 0 else ttl s later j)
