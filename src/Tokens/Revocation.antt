-- ===== src/Tokens/Revocation.antt =====
-- one-time-token-redis.service.ts: `revokeAllForUser`.
use authora.Prelude.{
  ◌≡◌, ◌≢◌, ◌⊎◌, inl, inr, Option-cases, Bool-cases, some_inj, ap, sym, refl, ◌∙◌, String, true,
  false, Option, none, some, List, [], ◌∷◌, arith, if◌then◌else◌, any, eq_refl, ◌==◌, eq_iff,
}
use authora.Model.{
  OneTimeTokenType, multi_factor_auth_verify, multi_factor_auth_validate,
  multi_factor_auth_disabling, account_deletion, forgot_password, magic_link, exchange,
}
use authora.Model.Equality.{same_type}
use authora.Redis.Keys.{Key, same_key, ott_key, ott_exchange_key}
use authora.Exec.{ok, err, invalid_token}
use authora.World.{Platform, World}
use authora.Tokens.{
  text_at, del_keys, collect, all_types, revoke_all_for_user, consume, consume_exchange_token,
}

-- Every type is in the list.
listed_types : (type : OneTimeTokenType) → any (λ t. same_type t type) all_types ≡ true
listed_types multi_factor_auth_verify = refl
listed_types multi_factor_auth_validate = refl
listed_types multi_factor_auth_disabling = refl
listed_types account_deletion = refl
listed_types forgot_password = refl
listed_types magic_link = refl
listed_types exchange = refl

-- The keys that `revokeAllForUser` collects have the user's key of every type,
collected :
    (user_id : String) (type : OneTimeTokenType) (o : Option String)
    → any (λ j. same_key j (ott_key user_id type)) (collect user_id o all_types) ≡ true
collected user_id type none = rw (eq_refl user_id) (listed_types type)
collected user_id type (some h) = rw (eq_refl user_id) (listed_types type)

-- and no key of another user.
spared :
    (user_id other : String) (type : OneTimeTokenType) (o : Option String)
    → user_id ≢ other
    → any (λ j. same_key j (ott_key other type)) (collect user_id o all_types) ≡ false
spared user_id other type none h =
    let apart : (user_id == other) ≡ false = ground (arith, h, eq_iff user_id other) in
    rw apart refl
spared user_id other type (some hash) h =
    let apart : (user_id == other) ≡ false = ground (arith, h, eq_iff user_id other) in
    rw apart refl

module _ {p : Platform} where
  del_keys_returns : (ks : List Key) (w : World p) → (del_keys ks w).0 ≡ ok tt
  unfolding del_keys
  del_keys_returns [] w = refl
  del_keys_returns (k ∷ ks) w = del_keys_returns ks _

  text_at-del_keys :
      (ks : List Key) (w : World p) (k : Key)
      → text_at (del_keys ks w).1 k ≡ (if any (λ j. same_key j k) ks then none else text_at w k)
  unfolding del_keys
  text_at-del_keys [] w k = refl
  text_at-del_keys (j ∷ ks) w k =
      text_at-del_keys ks (record w { redis = p.redis.del w.redis j }) k
      ∙ ground (arith, p.redis.get-del w.redis w.now j k)

  -- `revokeAllForUser` returns, and afterwards every one-time token of the user, of whichever
  -- type, is refused.
  pub revoke_all_for_user_lem :
      (w : World p) (user_id clear_token : String) (type : OneTimeTokenType)
      → let r = revoke_all_for_user user_id w in
        (r.0 ≡ ok tt) × (consume user_id clear_token type r.1 ≡ (err invalid_token, r.1))
  unfolding revoke_all_for_user consume
  revoke_all_for_user_lem w user_id clear_token type =
      let existing = text_at w (ott_key user_id exchange) in
      let ks = collect user_id existing all_types in
      (
        del_keys_returns ks w,
        rw (text_at-del_keys ks w (ott_key user_id type))
            (rw (collected user_id type existing) refl),
      )

  pub revoke_all_for_user_index :
      (w : World p) (user_id h : String)
      → text_at w (ott_key user_id exchange) ≡ some h
      → text_at (revoke_all_for_user user_id w).1 (ott_exchange_key h) ≡ none
  unfolding revoke_all_for_user
  revoke_all_for_user_index w user_id h e =
      text_at-del_keys (collect user_id (text_at w (ott_key user_id exchange)) all_types) w
        (ott_exchange_key h)
      ∙ rw e (rw (eq_refl h) refl)

  -- Either the code is not the exchange token that the user had before, or it is refused after.
  abbrev pub IsSpent : World p → World p → String → String → Type 0
  IsSpent w w' user_id code =
      (text_at w (ott_key user_id exchange) ≢ some (p.sha256 code))
      ⊎ (consume_exchange_token code w' ≡ (err invalid_token, w'))

  consume_exchange-refused :
      (w : World p) (code : String)
      → text_at w (ott_exchange_key (p.sha256 code)) ≡ none
      → consume_exchange_token code w ≡ (err invalid_token, w)
  unfolding consume_exchange_token
  consume_exchange-refused w code e = rw e refl

  pub revoke_all_for_user-IsSpent :
      (w : World p) (user_id code : String)
      → IsSpent w (revoke_all_for_user user_id w).1 user_id code
  revoke_all_for_user-IsSpent w user_id code =
      elim (Option-cases (text_at w (ott_key user_id exchange))) [
        | inl e ↦ inl (λ same. absurd (cc))
        | inr (h, e) ↦ elim (Bool-cases (h == p.sha256 code)) [
          | inl hit ↦
              let same : h ≡ p.sha256 code = (eq_iff h (p.sha256 code)).0 hit in
              inr (
                consume_exchange-refused (revoke_all_for_user user_id w).1 code
                  (revoke_all_for_user_index w user_id (p.sha256 code) (e ∙ ap some same)))
          | inr miss ↦ inl (λ same.
              let equal : h ≡ p.sha256 code = some_inj (sym e ∙ same) in
              absurd (ground (arith, eq_iff h (p.sha256 code), equal)))
        ]
      ]

  -- Nothing but the user's exchange token before counts.
  pub IsSpent-from :
      (w v w' : World p) (user_id code : String)
      → text_at w (ott_key user_id exchange) ≡ text_at v (ott_key user_id exchange)
      → IsSpent v w' user_id code
      → IsSpent w w' user_id code
  IsSpent-from w v w' user_id code same (inl other) = inl (λ e. other (sym same ∙ e))
  IsSpent-from w v w' user_id code same (inr refused) = inr refused

  -- `revokeAllForUser` leaves the stored one-time tokens of every other user as they were.
  pub revoke_all_for_user_others :
      (w : World p) (user_id other : String) (type : OneTimeTokenType)
      → user_id ≢ other
      → text_at (revoke_all_for_user user_id w).1 (ott_key other type)
        ≡ text_at w (ott_key other type)
  unfolding revoke_all_for_user
  revoke_all_for_user_others w user_id other type h =
      let ks = collect user_id (text_at w (ott_key user_id exchange)) all_types in
      text_at-del_keys ks w (ott_key other type) ∙ rw (spared user_id other type _ h) refl
