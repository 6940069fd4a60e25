-- ===== src/Http/Delay/Bounds.antt =====
-- The delay lies between the two settings.
use native.Mathlib.Nat.{mul-le-mul_right}
use authora.Prelude.{
  ℕ, ◌+◌, ◌-◌, ◌*◌, ◌≤◌, ◌<◌, String, true, false, ◌≡◌, refl, ◌∙◌, some, List, [], ◌∷◌, arith, leb,
}
use authora.Config.Names.{AuthoraSetting}
use authora.Config.Values.{SettingValue}
use authora.Exec.{Result, ok, err}
use authora.Site.{Site, SiteState}
use authora.Settings.{get_many_authora, read_all}
use authora.Settings.Catalog.{values, Catalog, setting, perform, answered}
use authora.Settings.Represents.{Represents}
use authora.Settings.Reads.{get_many_refines}
use authora.Http.Delay.{unit, to_double, random_between, get_delay_ms}
use authora.Http.Delay.Doubles.{to_double_lower, to_double_upper}

random_between_low : (r min max : ℕ) → min ≤ max → min * unit ≤ random_between r min max
unfolding random_between
random_between_low r min max h =
    let ordered : leb min max ≡ true = ground arith in
    rw ordered (to_double_lower (to_double (r * (max - min)) + min * unit) min (omega arith))

-- Rounding can give the larger bound itself, but no more.
random_between_high : (r min max : ℕ) → r < unit → min ≤ max → random_between r min max ≤ max * unit
unfolding random_between
random_between_high r min max below h =
    let ordered : leb min max ≡ true = ground arith in
    let scaled : r * (max - min) ≤ unit * (max - min) =
      mul-le-mul_right (max - min) (omega arith) in
    let product = to_double_upper (r * (max - min)) (max - min) (omega arith) in
    let whole : unit * (max - min) + min * unit ≡ max * unit = omega arith in
    rw ordered (to_double_upper (to_double (r * (max - min)) + min * unit) max (omega arith))

-- Settings in the wrong order give the delays between them all the same.
random_between_swapped :
    (r min max : ℕ)
    → r < unit
    → max < min
    → (max * unit ≤ random_between r min max) × (random_between r min max ≤ min * unit)
unfolding random_between
random_between_swapped r min max below h =
    let ordered : leb min max ≡ false = ground arith in
    let scaled : r * (min - max) ≤ unit * (min - max) =
      mul-le-mul_right (min - max) (omega arith) in
    let product = to_double_upper (r * (min - max)) (min - max) (omega arith) in
    let whole : unit * (min - max) + max * unit ≡ min * unit = omega arith in
    let value = min * unit - to_double (r * (min - max)) in
    rw ordered (to_double_lower value max (omega arith), to_double_upper value min (omega arith))

-- what a read of several settings answered
answered-values :
    {b : Site} (r : Result (List (AuthoraSetting × SettingValue)) × SiteState b)
    (vs : List (AuthoraSetting × SettingValue)) (t : SiteState b)
    → answered values r ≡ (values vs, t)
    → r ≡ (ok vs, t)
answered-values (ok ws, s) vs t h = cc
answered-values (err e, s) vs t h = absurd (cc)

module _ {b : Site} where
  get_delay_ms-values :
      (r : ℕ) (s t : SiteState b) (a : Catalog) (id : String)
      → get_many_authora
          (AuthoraSetting.endpoint_delay_min_ms ∷ AuthoraSetting.endpoint_delay_max_ms ∷ [])
          s
        ≡ (
          ok (
              read_all
                (setting a id)
                (AuthoraSetting.endpoint_delay_min_ms ∷ AuthoraSetting.endpoint_delay_max_ms ∷ [])),
          t,
        )
      → get_delay_ms r s ≡ (
        ok (
            some (
              random_between r
                (a.config id AuthoraSetting.endpoint_delay_min_ms)
                (a.config id AuthoraSetting.endpoint_delay_max_ms))),
        t,
      )
  unfolding get_delay_ms
  get_delay_ms-values r s t a id h = rw h refl

  -- Where the tables and the cache stand for a catalog of configurations with a current one whose
  -- smallest delay is at most its largest, the delay that `_getDelayMs` draws, rounded as doubles
  -- are, is neither below the smallest nor above the largest, whether or not the settings are
  -- cached.
  pub delay_within :
      (r : ℕ) (s : SiteState b) (a : Catalog) (id : String)
      → Represents s a
      → a.current ≡ some id
      → r < unit
      → a.config id AuthoraSetting.endpoint_delay_min_ms
        ≤ a.config id AuthoraSetting.endpoint_delay_max_ms
      → (d : ℕ) × (t : SiteState b) × (get_delay_ms r s ≡ (ok (some d), t))
        × (a.config id AuthoraSetting.endpoint_delay_min_ms * unit ≤ d)
        × (d ≤ a.config id AuthoraSetting.endpoint_delay_max_ms * unit)
  unfolding perform
  delay_within r s a id h current below ordered =
      let min = a.config id AuthoraSetting.endpoint_delay_min_ms in
      let max = a.config id AuthoraSetting.endpoint_delay_max_ms in
      let keys : List AuthoraSetting =
        AuthoraSetting.endpoint_delay_min_ms ∷ AuthoraSetting.endpoint_delay_max_ms ∷ [] in
      let (t, answer, h') = get_many_refines s a keys h in
      let read =
        answered-values (get_many_authora keys s) (read_all (setting a id) keys) t
          (answer ∙ rw current refl) in
      (
        random_between r min max,
        t,
        get_delay_ms-values r s t a id read,
        random_between_low r min max ordered,
        random_between_high r min max below ordered,
      )
