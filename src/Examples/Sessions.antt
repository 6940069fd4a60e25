-- ===== src/Examples/Sessions.antt =====
-- The services of Redis, run in the example deployment.
use authora.Prelude.{◌≡◌, refl, arith, eq_iff}
use authora.Model.{forgot_password}
use authora.Exec.{err, invalid_token}
use authora.Repository.Listed.{listed, first, sort_desc, place}
use authora.Redis.Entries.{entries, set_entry, incr_entry, expire_entry}
use authora.Sessions.Storage.{IsKeyed}
use authora.World.{World}
use authora.Tokens.Reachable.{Reachable, here, after, wait, create_exchange, Reachable-session_id}
use authora.Tokens.{create_exchange_token, consume}
use authora.Tokens.Single.{consume_once}
use authora.Examples.{demo, demo_world, random_name, done_session}

done_session-IsKeyed : IsKeyed (demo_world done_session)
unfolding demo demo_world entries
done_session-IsKeyed later id = ground (arith, eq_iff "sid" id)

-- a minute later, with an exchange token
unfoldable later_world : World demo
unfolding create_exchange_token
later_world = record (create_exchange_token "alice" "sid" (demo_world done_session)).1 {
  now = 61000;
}

later_world-Reachable : Reachable (demo_world done_session) later_world
unfolding later_world
later_world-Reachable =
    after (after here (create_exchange (demo_world done_session) "alice" "sid"))
      (wait (create_exchange_token "alice" "sid" (demo_world done_session)).1 61000)

consume_once_example :
    consume "alice" "reset" forgot_password
      ((consume "alice" "reset" forgot_password (demo_world done_session)).1)
    ≡ (err invalid_token, ((consume "alice" "reset" forgot_password (demo_world done_session)).1))
unfolding demo demo_world listed first sort_desc place entries set_entry incr_entry expire_entry
    random_name consume
consume_once_example =
    consume_once (demo_world done_session)
      ((consume "alice" "reset" forgot_password (demo_world done_session)).1) "alice" "reset"
      "reset" forgot_password refl

Reachable-session_id_example : done_session.id ≡ "sid"
unfolding demo demo_world listed first sort_desc place entries set_entry incr_entry expire_entry
    random_name later_world create_exchange_token
Reachable-session_id_example =
    Reachable-session_id (demo_world done_session) later_world "sid" done_session
      done_session-IsKeyed later_world-Reachable refl
