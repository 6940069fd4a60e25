-- ===== src/Config/Updates.antt =====
-- What the columns hold after an update of one of them.
use authora.Prelude.{
  ℕ, ◌≡◌, refl, ◌∙◌, ap, Bool, true, false, if◌then◌else◌, Bool-cases, inl, inr, subst,
}
use authora.Config.{AuthoraConfig, TenantConfig}
use authora.Config.Names.{AuthoraSetting, TenantSetting, same_authora, same_tenant, same_tenant_iff}
use authora.Config.Values.{
  number_value, type_of, authora_field, authora_field-from, authora_value, put_authora, Kind,
  flag_kind, number_kind, text_kind, mode_kind, policy_kind, Typed, untyped, kind,
  TenantSettingValue, tenant_field, tenant_field-from, tenant_value, typed_as, typed_as_same,
  put_tenant,
}

pub authora_value-put :
    (k j : AuthoraSetting) (v : ℕ) (c : AuthoraConfig)
    → authora_value (put_authora k v c) j
      ≡ (if same_authora k j then number_value v else authora_value c j)
authora_value-put k j v c =
    ap number_value (authora_field-from (λ i. if same_authora k i then v else authora_field c i) j)
    ∙ number-if (same_authora k j)
  where
    number-if :
        (b : Bool)
        → number_value (if b then v else authora_field c j)
          ≡ (if b then number_value v else number_value (authora_field c j))
    number-if true = refl
    number-if false = refl

pub tenant_value-put :
    (k j : TenantSetting) (v : TenantSettingValue k) (c : TenantConfig)
    → tenant_value (put_tenant k v c) j
      ≡ (if same_tenant k j then untyped (kind k) v else tenant_value c j)
tenant_value-put k j v c =
    ap (untyped (kind j)) (
      tenant_field-from
        (λ i.
          if same_tenant k i
          then typed_as (kind k) (kind i) v (tenant_field c i)
          else tenant_field c i)
        j)
    ∙ elim (Bool-cases (same_tenant k j)) [
      | inl same ↦ rw same (moved ((same_tenant_iff k j).0 same))
      | inr other ↦ rw other refl
    ]
  where
    moved :
        {i : TenantSetting}
        → k ≡ i
        → untyped (kind i) (typed_as (kind k) (kind i) v (tenant_field c i)) ≡ untyped (kind k) v
    moved p =
        subst
          (λ i.
            untyped (kind i) (typed_as (kind k) (kind i) v (tenant_field c i)) ≡ untyped (kind k) v)
          p (ap (untyped (kind k)) (typed_as_same (kind k) v (tenant_field c k)))

-- Every value of a setting has the type of its default.
pub type_of-untyped : (κ : Kind) (v w : Typed κ) → type_of (untyped κ v) ≡ type_of (untyped κ w)
type_of-untyped flag_kind v w = refl
type_of-untyped number_kind v w = refl
type_of-untyped text_kind v w = refl
type_of-untyped mode_kind v w = refl
type_of-untyped policy_kind v w = refl
