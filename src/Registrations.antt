-- ===== src/Registrations.antt =====
-- service/entity-service/registration-entity.service.ts.
use authora.Prelude.{ℕ, ◌+◌, ◌*◌, String, Bool, ◌&&◌, Option, ◌==◌, is_some}
use authora.Model.{RegistrationEntity}
use authora.Exec.{pure, gets, modify, ◌>>=◌, ◌>>◌}
use authora.World.{Platform, Action, draw, time}
use authora.Hashing.{hash}

module _ (p : Platform) where
  abbrev pub token_expires_at : ℕ → String → ℕ
  token_expires_at now tenant_id = now + (p.tenant tenant_id).ott_email_verification_ttl_sec * 1000

abbrev pub with_token : String → ℕ → RegistrationEntity → RegistrationEntity
with_token token_hash expires_at r = record r {
  email_verification_token_hash = token_hash;
  email_verification_token_expires_at = expires_at;
}

module _ {p : Platform} where
  unfoldable pub create : String → String → String → String → Action p RegistrationEntity
  unfolding hash
  create email tenant_id clear_password clear_token = do
    password_hash ← hash clear_password
    token_hash ← hash clear_token
    n ← draw
    now ← time
    let created : RegistrationEntity = record {
      id = p.uuid n;
      email = email;
      tenant_id = tenant_id;
      password_hash = password_hash;
      email_verification_token_hash = token_hash;
      email_verification_token_expires_at = token_expires_at p now tenant_id;
      created_at = now;
    }
    modify (λ w. record w { registrations = p.registrations.insert created w.registrations })
    pure created

  -- the relation `tenant` is loaded here
  unfoldable pub find_by_email : String → Action p (Option RegistrationEntity)
  find_by_email email = gets (λ w. p.registrations.find_one (λ r. r.email == email) w.registrations)

  unfoldable pub exists_by_email : String → String → Action p Bool
  exists_by_email email tenant_id = gets (λ w. is_some (
      p.registrations.find_one (λ r. r.email == email && r.tenant_id == tenant_id) w.registrations))

  -- `save` of an entity that was read
  unfoldable pub update_email_verification_token : RegistrationEntity → String → Action p (Unit {0})
  unfolding hash
  update_email_verification_token r clear_token = do
    token_hash ← hash clear_token
    now ← time
    modify (λ w. record w {
      registrations =
          p.registrations.update (λ s. s.id == r.id)
            (with_token token_hash (token_expires_at p now r.tenant_id)) w.registrations;
    })

  unfoldable pub delete : RegistrationEntity → Action p (Unit {0})
  delete r =
      modify (λ w. record w {
        registrations = p.registrations.remove (λ s. s.id == r.id) w.registrations;
      })
