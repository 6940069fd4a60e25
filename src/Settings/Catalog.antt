-- ===== src/Settings/Catalog.antt =====
-- What SettingsService promises for Authora's settings, with no cache and no tables: a catalog of
-- configurations by id, of which at most one is current. `perform` makes a call of the service
-- itself; `wait` is the time between two calls.
use authora.Prelude.{
  ℕ, ◌+◌, String, Bool, true, ◌≡◌, Option, none, some, List, [], ◌∷◌, ◌&&◌, ◌==◌, if◌then◌else◌,
}
use authora.Config.Names.{AuthoraSetting, same_authora}
use authora.Config.Values.{SettingValue, number_value}
use authora.Exec.{Exception, Result, ok, err, modify, no_active_authora_config}
use authora.Site.{Site, SiteState, Task}
use authora.Settings.{
  read_all, get_authora, get_many_authora, set_authora, activate_authora_config,
  refresh_authora_cache,
}

pub data Call : Type 0 where
  get : AuthoraSetting → Call
  get_many : List AuthoraSetting → Call
  set : AuthoraSetting → ℕ → Call
  activate : String → Call
  refresh : Call
  wait : ℕ → Call

pub data Answer : Type 0 where
  value : SettingValue → Answer
  values : List (AuthoraSetting × SettingValue) → Answer
  done : Answer
  failed : Exception → Answer

pub record Catalog : Type 0 where
  pub known : String → Bool
  pub config : String → AuthoraSetting → ℕ
  pub current : Option String

abbrev pub read : Option String → (String → Answer) → Answer
read none f = failed no_active_authora_config
read (some id) f = f id

abbrev pub setting : Catalog → String → AuthoraSetting → SettingValue
setting a id k = number_value (a.config id k)

abbrev pub respond : Call → Catalog → Answer
respond (get k) a = read a.current (λ id. value (setting a id k))
respond (get_many []) a = values []
respond (get_many (k ∷ ks)) a = read a.current (λ id. values (read_all (setting a id) (k ∷ ks)))
respond (set k v) a = read a.current (λ id. done)
respond (activate id) a = done
respond refresh a = done
respond (wait n) a = done

abbrev pub changed :
    (String → AuthoraSetting → ℕ) → AuthoraSetting → ℕ → Option String → String → AuthoraSetting → ℕ
changed config k v none i j = config i j
changed config k v (some id) i j = if i == id && same_authora k j then v else config i j

abbrev pub after : Call → Catalog → Catalog
after (set k v) a = record a { config = changed a.config k v a.current }
after (activate id) a = record a { current = some id }
after _ a = a

unfoldable pub replay : List Call → Catalog → List Answer
replay [] a = []
replay (c ∷ calls) a = respond c a ∷ replay calls (after c a)

-- a configuration is activated only if it is known
abbrev pub Valid : (String → Bool) → Call → Type 0
Valid known (activate id) = known id ≡ true
Valid known _ = Unit

abbrev pub outcome : {A : Type 0} → (A → Answer) → Result A → Answer
outcome f (ok a) = f a
outcome f (err e) = failed e

module _ {b : Site} where
  abbrev pub answered : {A : Type 0} → (A → Answer) → Result A × SiteState b → Answer × SiteState b
  answered f (r, s) = (outcome f r, s)

  -- time passes, which never runs back
  abbrev pub wait_for : ℕ → Task b (Unit {0})
  wait_for n = modify (λ s. record s { world = record s.world { now = s.world.now + n } })

  unfoldable pub perform : Call → SiteState b → Answer × SiteState b
  perform (get k) s = answered value (get_authora k s)
  perform (get_many ks) s = answered values (get_many_authora ks s)
  perform (set k v) s = answered (λ u. done) (set_authora k v s)
  perform (activate id) s = answered (λ u. done) (activate_authora_config id s)
  perform refresh s = answered (λ u. done) (refresh_authora_cache s)
  perform (wait n) s = answered (λ u. done) (wait_for n s)

  unfoldable pub run : List Call → SiteState b → List Answer
  unfolding perform
  run [] s = []
  run (c ∷ calls) s = let (answer, s') = perform c s in answer ∷ run calls s'
