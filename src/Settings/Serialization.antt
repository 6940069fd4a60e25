-- ===== src/Settings/Serialization.antt =====
-- What the cache gives back for a setting that it was given.
use authora.Prelude.{
  String, true, false, ◌≡◌, refl, ap, ◌⊎◌, inl, inr, Option, none, some, List, [], ◌∷◌, map,
}
use authora.Config.Values.{
  SettingValue, flag_value, number_value, not_a_number, text_value, type_of,
}
use authora.Config.Decimal.{to_number-to_text, to_number_nan}
use authora.Settings.{serialize, as_number, deserialize_as, deserialize, from_replies, read_all}

read_back : (v : SettingValue) → deserialize_as (type_of v) (serialize v) ≡ v
unfolding serialize
read_back (flag_value true) = refl
read_back (flag_value false) = refl
read_back (number_value n) = ap as_number (to_number-to_text n)
read_back not_a_number = ap as_number to_number_nan
read_back (text_value s) = refl

-- A Boolean, a number or a text that is cached is read back as it was, if the reference value has
-- the same type.
pub deserialize-serialize :
    (v reference : SettingValue)
    → type_of v ≡ type_of reference
    → deserialize (serialize v) reference ≡ v
unfolding deserialize
deserialize-serialize v reference same = rw (← same) (read_back v)

-- `getMany` reads what was cached, or misses a key.
pub from_replies_cached :
    {K : Type 0} (reference value : K → SettingValue) (answer : K → Option String)
    → ((k : K) → type_of (value k) ≡ type_of (reference k))
    → ((k : K) → (answer k ≡ none) ⊎ (answer k ≡ some (serialize (value k))))
    → (keys : List K)
    → (from_replies reference keys (map answer keys) ≡ none)
      ⊎ (from_replies reference keys (map answer keys) ≡ some (read_all value keys))
unfolding from_replies
from_replies_cached reference value answer same cached [] = inr refl
from_replies_cached reference value answer same cached (k ∷ keys) = elim (cached k) [
  | inl miss ↦ inl (rw miss refl)
  | inr hit ↦ elim (from_replies_cached reference value answer same cached keys) [
    | inl missed ↦ inl (rw (hit, missed) refl)
    | inr read ↦
        let back = deserialize-serialize (value k) (reference k) (same k) in
        inr (rw (hit, read, back) refl)
  ]
]

pub from_replies_missed :
    {K : Type 0} (reference : K → SettingValue) (answer : K → Option String) (k : K) (keys : List K)
    → answer k ≡ none
    → from_replies reference (k ∷ keys) (map answer (k ∷ keys)) ≡ none
unfolding from_replies
from_replies_missed reference answer k keys miss = rw miss refl
