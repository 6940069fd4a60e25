-- ===== src/Devices.antt =====
-- service/entity-service/trusted-device-entity.service.ts.
use authora.Prelude.{
  ℕ, ◌+◌, ◌*◌, String, Bool, true, false, ◌&&◌, Option, none, some, List, [], ◌∷◌, if◌then◌else◌,
  ltb, ◌==◌,
}
use authora.Model.{TrustedDeviceEntity, UserEntity}
use authora.Exec.{pure, gets, modify, ◌>>=◌, ◌>>◌}
use authora.World.{Platform, Action, draw, time}
use authora.Hashing.{hash}

abbrev pub before : ℕ → Option ℕ → Bool
before now none = false
before now (some deadline) = ltb now deadline

-- `isTrusted`; `trustedUntil` null counts as no trust (an invalid date is later than nothing)
unfoldable pub is_trusted : ℕ → TrustedDeviceEntity → Bool
is_trusted now d = d.trusted && before now d.trusted_until

-- The patches of the updates.
abbrev pub trusting : ℕ → TrustedDeviceEntity → TrustedDeviceEntity
trusting deadline d = record d { trusted = true; trusted_until = some deadline }

abbrev pub distrusting : TrustedDeviceEntity → TrustedDeviceEntity
distrusting d = record d { trusted = false; trusted_until = none }

abbrev pub seen : ℕ → String → TrustedDeviceEntity → TrustedDeviceEntity
seen now ip d = record d { last_seen_at = now; last_ip = ip }

module _ (p : Platform) where
  -- the loop of `findByFingerprint`
  unfoldable pub first_match : String → List TrustedDeviceEntity → Option TrustedDeviceEntity
  first_match fingerprint [] = none
  first_match fingerprint (d ∷ ds) =
      let rest = first_match fingerprint ds in
      if p.argon2_verify d.fingerprint_hash fingerprint then some d else rest

module _ {p : Platform} where
  abbrev pub update_device :
      String → (TrustedDeviceEntity → TrustedDeviceEntity) → Action p (Unit {0})
  update_device id patch =
      modify (λ w. record w { devices = p.devices.update (λ d. d.id == id) patch w.devices })

  unfoldable pub find_by_fingerprint : UserEntity → String → Action p (Option TrustedDeviceEntity)
  unfolding first_match
  find_by_fingerprint u fingerprint =
      gets (λ w.
        first_match p fingerprint (p.devices.find (λ d. d.user_id == u.id) (λ d. 0) w.devices))

  unfoldable pub find_all_for_user : UserEntity → Action p (List TrustedDeviceEntity)
  find_all_for_user u =
      gets (λ w. p.devices.find (λ d. d.user_id == u.id) (λ d. d.last_seen_at) w.devices)

  -- `browser`, `os` and `deviceType` are never given: their fallbacks stand here
  unfoldable pub create :
      UserEntity → String → String → String → String → Action p TrustedDeviceEntity
  unfolding hash
  create u fingerprint name ip user_agent = do
    now ← time
    fingerprint_hash ← hash fingerprint
    n ← draw
    let created : TrustedDeviceEntity = record {
      id = p.uuid n;
      user_id = u.id;
      fingerprint_hash = fingerprint_hash;
      name = name;
      last_ip = ip;
      user_agent = user_agent;
      browser = "Unknown";
      os = "Unknown";
      device_type = "desktop";
      trusted = false;
      trusted_until = none;
      first_seen_at = now;
      last_seen_at = now;
      created_at = now;
    }
    modify (λ w. record w { devices = p.devices.insert created w.devices })
    pure created

  unfoldable pub update_last_seen : TrustedDeviceEntity → String → Action p (Unit {0})
  update_last_seen d ip = do now ← time; update_device d.id (seen now ip)

  unfoldable pub register_new :
      UserEntity → String → String → Action p (TrustedDeviceEntity × String)
  unfolding create
  register_new u ip user_agent = do
    n ← draw
    let fingerprint = p.random_hex n
    device ← create u fingerprint "Unknown" ip user_agent
    pure (device, fingerprint)

  -- the entity that is returned keeps the `lastSeenAt` it was read with
  unfoldable pub register_or_update :
      UserEntity → Option String → String → String → Action p (TrustedDeviceEntity × String)
  unfolding find_by_fingerprint update_last_seen register_new
  register_or_update u none ip user_agent = register_new u ip user_agent
  register_or_update u (some fingerprint) ip user_agent = do
    existing ← find_by_fingerprint u fingerprint
    elim existing [
      | none ↦ register_new u ip user_agent
      | some d ↦ do update_last_seen d ip; pure (d, fingerprint)
    ]

  unfoldable pub find_by_id : String → Action p (Option TrustedDeviceEntity)
  find_by_id id = gets (λ w. p.devices.find_one (λ d. d.id == id) w.devices)

  unfoldable pub trust : TrustedDeviceEntity → String → Action p (Unit {0})
  trust d tenant_id = do
    now ← time
    update_device d.id (trusting (now + (p.tenant tenant_id).trusted_device_ttl_sec * 1000))

  unfoldable pub distrust : TrustedDeviceEntity → Action p (Unit {0})
  distrust d = update_device d.id distrusting

  unfoldable pub delete : TrustedDeviceEntity → Action p (Unit {0})
  delete d = modify (λ w. record w { devices = p.devices.remove (λ r. r.id == d.id) w.devices })

  unfoldable pub delete_all_for_user : UserEntity → Action p (Unit {0})
  delete_all_for_user u =
      modify (λ w. record w { devices = p.devices.remove (λ r. r.user_id == u.id) w.devices })
