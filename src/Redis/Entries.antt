-- ===== src/Redis/Entries.antt =====
-- A store that keeps each key's value and deadline in a list: the parameter `Redis` can be met. It
-- serves the examples only.
use authora.Prelude.{
  ℕ, ◌+◌, ◌-◌, ◌*◌, ◌/◌, ◌≡◌, refl, Option, none, some, arith, if◌then◌else◌, is_some,
}
use authora.Redis.Keys.{Key, same_key}
use authora.Redis.{Redis, Value, number, count_of, until}

pub record Entry : Type 0 where
  pub value : Value
  pub deadline : Option ℕ

-- the milliseconds left, or `none` for a key that never expires
abbrev pub live : ℕ → Option Entry → Option Value
live now none = none
live now (some e) = elim e.deadline [
  | none ↦ some e.value
  | some deadline ↦ until deadline now (some e.value)
]

abbrev pub left : ℕ → Option Entry → ℕ
left now none = 0
left now (some e) = elim e.deadline [ none ↦ 0 | some deadline ↦ (deadline + 500 - now) / 1000 ]

abbrev pub deadline_of : Option Entry → Option ℕ
deadline_of none = none
deadline_of (some e) = e.deadline

-- the deadline that a live key keeps
abbrev pub kept : ℕ → Option Entry → Option ℕ
kept now o = if is_some (live now o) then deadline_of o else none

abbrev pub expiring : Option Entry → ℕ → Option Entry
expiring none deadline = none
expiring (some e) deadline = some (record e { deadline = some deadline })

abbrev pub Entries : Type 0
Entries = Key → Option Entry

abbrev pub put : Entries → Key → Option Entry → Entries
put s k e j = if same_key k j then e else s j

unfoldable pub set_entry : Entries → ℕ → Key → Value → ℕ → Entries
set_entry s now k v ttl = put s k (some (record { value = v; deadline = some (now + ttl * 1000) }))

unfoldable pub incr_entry : Entries → ℕ → Key → ℕ × Entries
incr_entry s now k =
    let count = count_of (live now (s k)) + 1 in
    (count, put s k (some (record { value = number count; deadline = kept now (s k) })))

unfoldable pub expire_entry : Entries → ℕ → Key → ℕ → Entries
expire_entry s now k ttl =
    put s k (if is_some (live now (s k)) then expiring (s k) (now + ttl * 1000) else none)

pub live-incr :
    (now count : ℕ) (o : Option Entry)
    → live now (some (record { value = number count; deadline = kept now o })) ≡ some (number count)
live-incr now count none = refl
live-incr now count (some e) = ground arith

pub live-expiring :
    (now later deadline : ℕ) (o : Option Entry)
    → live later (if is_some (live now o) then expiring o deadline else none)
      ≡ until deadline later (live now o)
live-expiring now later deadline none = ground arith
live-expiring now later deadline (some e) = ground arith

pub left-none : (now : ℕ) (o : Option Entry) → live now o ≡ none → left now o ≡ 0
left-none now none h = refl
left-none now (some e) h = ground arith

unfoldable pub entries : Redis
unfolding set_entry incr_entry expire_entry
entries = record {
  Store = Entries;
  get = λ s now k. live now (s k);
  set_ex = set_entry;
  set = λ s k v. put s k (some (record { value = v; deadline = none }));
  del = λ s k. put s k none;
  ttl = λ s now k. left now (s k);
  incr = incr_entry;
  expire = expire_entry;
  get-set_ex = λ s now later ttl k j v. ground arith;
  get-set = λ s later k j v. ground arith;
  get-del = λ s later k j. ground arith;
  get-incr = λ s now k j. ground (arith, live-incr now (count_of (live now (s k)) + 1) (s k));
  incr_count = λ s now k. refl;
  get-expire =
      λ s now later ttl k j. ground (arith, live-expiring now later (now + ttl * 1000) (s k));
  ttl_none = λ s now k h. left-none now (s k) h;
  ttl-set_ex = λ s now later n k j v. ground arith;
  ttl-del = λ s later k j. ground arith;
}
