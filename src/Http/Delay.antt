-- ===== src/Http/Delay.antt =====
-- interceptor/delay.interceptor.ts: how long the answer of an endpoint with `@Delay()` is held back.
-- `Math.random()` is r / 2^53 for an r below 2^53; a delay is kept in units of 2^-53 ms, and the
-- product and the sum are rounded as doubles are.
pub mod Doubles
pub mod Bounds
use authora.Prelude.{
  ℕ, zero, suc, ◌+◌, ◌-◌, ◌*◌, ◌/◌, ◌%◌, ltb, eqb, Bool, Option, none, some, List, [], ◌∷◌,
  if◌then◌else◌, leb,
}
use authora.Config.Names.{AuthoraSetting, same_authora}
use authora.Config.Values.{SettingValue, number_value, not_a_number}
use authora.Exec.{pure, ◌>>=◌}
use authora.Site.{Site, Task}
use authora.Settings.{get_many_authora}

abbrev pub unit : ℕ
unit = 9007199254740992

-- `result[key]`; an absent key stands for NaN, as the value is only calculated with
abbrev pub value_at : AuthoraSetting → List (AuthoraSetting × SettingValue) → SettingValue
value_at key [] = not_a_number
value_at key ((k, v) ∷ rest) =
    let later = value_at key rest in if same_authora key k then v else later

-- the spacing of the doubles around a number of units: 1, and twice as much each time that the 53
-- bits of the significand are used up; the fuel is the number of doublings left
unfoldable pub spacing : ℕ → ℕ → ℕ → ℕ
spacing zero p n = p
spacing (suc fuel) p n = let wider = spacing fuel (2 * p) n in if ltb n (unit * p) then p else wider

-- the nearest multiple of the spacing, and of two as near the even one
unfoldable pub round_to : ℕ → ℕ → ℕ
round_to p n =
    let low = n / p * p in
    let high = (n / p + 1) * p in
    if ltb (2 * (n % p)) p
    then low
    else if ltb p (2 * (n % p))
    then high
    else if eqb (n / p % 2) 0
    then low
    else high

-- the double that stands for a number of units; below 2^106 units the fuel is enough
unfoldable pub to_double : ℕ → ℕ
unfolding spacing round_to
to_double n = round_to (spacing 53 1 n) n

-- `Math.random() * (max - min) + min`, where `max` and `min` are below 2^53
unfoldable pub random_between : ℕ → ℕ → ℕ → ℕ
unfolding to_double
random_between r min max =
    if leb min max
    then to_double (to_double (r * (max - min)) + min * unit)
    else to_double (min * unit - to_double (r * (min - max)))

-- NaN if one bound is
abbrev pub delay_between : ℕ → SettingValue → SettingValue → Option ℕ
delay_between r (number_value min) (number_value max) = some (random_between r min max)
delay_between r _ _ = none

module _ {b : Site} where
  -- `_getDelayMs`
  unfoldable pub get_delay_ms : ℕ → Task b (Option ℕ)
  get_delay_ms r = do
    settings ←
        get_many_authora
          (AuthoraSetting.endpoint_delay_min_ms ∷ AuthoraSetting.endpoint_delay_max_ms ∷ [])
    pure (
        delay_between r (value_at AuthoraSetting.endpoint_delay_min_ms settings)
          (value_at AuthoraSetting.endpoint_delay_max_ms settings))
