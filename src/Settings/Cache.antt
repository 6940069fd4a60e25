-- ===== src/Settings/Cache.antt =====
-- The pipelines of SettingsService: the state they leave, and the replies that Redis gives then.
use authora.Prelude.{
  ℕ, true, false, ◌≡◌, refl, ◌∙◌, ap, some, List, [], ◌∷◌, Bool-cases, Member, inl, inr,
}
use authora.Config.Values.{SettingValue}
use authora.Exec.{ok}
use authora.Redis.{Redis, text}
use authora.Redis.Keys.{Key, same_key, same_key_refl}
use authora.Site.{Site, SiteState}
use authora.Settings.{serialize, with_redis, cache_all}

module _ (r : Redis) {K : Type 0} (key : K → Key) (value : K → SettingValue) where
  abbrev pub pipeline : List K → r.Store → r.Store
  pipeline [] t = t
  pipeline (k ∷ ks) t = pipeline ks (r.set t (key k) (text (serialize (value k))))

  -- A key that no command of the pipeline names keeps its reply.
  pub get-pipeline_other :
      (ks : List K) (t : r.Store) (later : ℕ) (j : Key)
      → ((k : K) → same_key (key k) j ≡ false)
      → r.get (pipeline ks t) later j ≡ r.get t later j
  get-pipeline_other [] t later j other = refl
  get-pipeline_other (k ∷ ks) t later j other =
      get-pipeline_other ks _ later j other
      ∙ rw (r.get-set t later (key k) j (text (serialize (value k))), other k) refl

  module _ (injective : (k j : K) → same_key (key k) (key j) ≡ true → k ≡ j) where
    get-pipeline_keeps :
        (ks : List K) (t : r.Store) (later : ℕ) (k : K)
        → r.get t later (key k) ≡ some (text (serialize (value k)))
        → r.get (pipeline ks t) later (key k) ≡ some (text (serialize (value k)))
    get-pipeline_keeps [] t later k h = h
    get-pipeline_keeps (x ∷ ks) t later k h = get-pipeline_keeps ks _ later k (
        r.get-set t later (key x) (key k) (text (serialize (value x)))
        ∙ elim (Bool-cases (same_key (key x) (key k))) [
          | inl same ↦ rw same (ap (λ i. some (text (serialize (value i)))) (injective x k same))
          | inr other ↦ rw other h
        ])

    -- A key that the pipeline sets is answered by the value of its setting.
    pub get-pipeline :
        (ks : List K) (t : r.Store) (later : ℕ) (k : K)
        → Member k ks
        → r.get (pipeline ks t) later (key k) ≡ some (text (serialize (value k)))
    get-pipeline [] t later k m = absurd m
    get-pipeline (x ∷ ks) t later k (inr m) = get-pipeline ks _ later k m
    get-pipeline (x ∷ ks) t later k (inl here) = get-pipeline_keeps ks _ later k (
        rw
          (
            here,
            r.get-set t later (key x) (key x) (text (serialize (value x))),
            same_key_refl (key x),
          )
          refl)

module _ {b : Site} {K : Type 0} (key : K → Key) (value : K → SettingValue) where
  pub cache_all_lem :
      (ks : List K) (s : SiteState b)
      → cache_all key value ks s
        ≡ (ok tt, with_redis s (pipeline b.platform.redis key value ks s.world.redis))
  unfolding cache_all
  cache_all_lem [] s = refl
  cache_all_lem (k ∷ ks) s = cache_all_lem ks _
