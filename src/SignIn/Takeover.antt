-- ===== src/SignIn/Takeover.antt =====
-- sign-in.service.ts: `primaryAuthMagicLink` writes the requested user into the session and keeps
-- the factors that another user has passed in it.
use authora.Prelude.{◌<◌, ◌≡◌, refl, ◌∙◌, String, Option, some, arith, ◌==◌, eq_iff}
use authora.Model.{AuthSession, UserEntity, magic_link}
use authora.Exec.{ok}
use authora.World.{Platform, World}
use authora.Sessions.{stored}
use authora.Sessions.Storage.{seconds_left, write, stored-write, update_lem}
use authora.Tokens
use authora.Tokens.Single.{stored-create}
use authora.Emails
use authora.SignIn.{SignInOutput, primary_auth_magic_link}
use authora.SignIn.Completion.{exchange_session}
use authora.SignIn.Gate.{IsComplete, user_row, get_session_lem, exchange_session_complete}

-- the session with another user
abbrev pub retargeted : AuthSession → UserEntity → AuthSession
retargeted s v = record s { user_id = some v.id }

IsComplete-retargeted :
    (s : AuthSession) (v : UserEntity) → IsComplete s → IsComplete (retargeted s v)
IsComplete-retargeted s v c = record {
  first_factor = c.first_factor;
  second_factor = c.second_factor;
  unused = c.unused;
}

module _ {p : Platform} where
  abbrev pub user_by_email : World p → String → Option UserEntity
  user_by_email w email = p.users.find_one (λ u. u.email == email) w.users

  -- the world after the link was sent
  abbrev pub linked_world :
      World p → String → String → Option String → AuthSession → UserEntity → World p
  linked_world w id email locale s v =
      (Emails.send_magic_link email (p.random_hex w.draws) s.tenant_id (some id) locale
        (Tokens.create v.id magic_link (p.tenant s.tenant_id) (write w (retargeted s v))).1).1

  primary_auth_magic_link_lem :
      (w : World p) (id email : String) (locale : Option String) (s : AuthSession) (v : UserEntity)
      → stored w id ≡ some s
      → s.id ≡ id
      → user_by_email w (p.to_lower_case email) ≡ some v
      → 0 < seconds_left w s.id
      → primary_auth_magic_link id email locale w
        ≡ (ok tt, linked_world w id (p.to_lower_case email) locale s v)
  unfolding primary_auth_magic_link
  primary_auth_magic_link_lem w id email locale s v there same found alive =
      rw (get_session_lem w id s there same, primary_auth_magic_link)
        (rw (found, primary_auth_magic_link)
          (rw (update_lem w (retargeted s v) alive)
            (unfold Tokens.create Emails.send_magic_link in refl)))

  stored-linked_world :
      (w : World p) (id email : String) (locale : Option String) (s : AuthSession) (v : UserEntity)
      → s.id ≡ id
      → 0 < seconds_left w s.id
      → stored (linked_world w id email locale s v) id ≡ some (retargeted s v)
  unfolding Emails.send_magic_link
  stored-linked_world w id email locale s v same alive =
      stored-create (write w (retargeted s v)) v.id id (p.tenant s.tenant_id) magic_link
      ∙ stored-write w (retargeted s v) id alive
      ∙ ground (arith, eq_iff s.id id)

  -- In a stored session under its own id, which has not expired and is complete for whichever
  -- user, a request of a magic link for the email of any stored user is enough for
  -- `exchangeSession` to issue the tokens of that user; the link need not be read.
  pub magic_link_takeover :
      (w : World p) (id email : String) (locale : Option String) (s : AuthSession) (v : UserEntity)
      → stored w id ≡ some s
      → s.id ≡ id
      → IsComplete s
      → 0 < seconds_left w id
      → user_by_email w (p.to_lower_case email) ≡ some v
      → user_row w v.id ≡ some v
      → (out : SignInOutput) × ((exchange_session id
            (primary_auth_magic_link id email locale w).1).0
          ≡ ok out)
        × (out.access_token ≡ p.sign v.id v.email w.now)
  unfolding Tokens.create Emails.send_magic_link
  magic_link_takeover w id email locale s v there same complete alive found row =
      let lower = p.to_lower_case email in
      let left : 0 < seconds_left w s.id = rw same alive in
      let v' = linked_world w id lower locale s v in
      let (out, returned, signed, gone) =
        exchange_session_complete v' id (retargeted s v) v
          (stored-linked_world w id lower locale s v same left) same
          (IsComplete-retargeted s v complete) (refl, row) in
      rw (primary_auth_magic_link_lem w id email locale s v there same found left)
        (out, returned, signed)
