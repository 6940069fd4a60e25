-- ===== src/Attempts.antt =====
-- service/entity-service/sign-in-attempt-entity.service.ts.
use authora.Prelude.{String, Bool, Option}
use authora.Model.{UserEntity, AuthFailureReason}
use authora.Exec.{modify, ◌>>=◌}
use authora.World.{Platform, Action, draw, time}

module _ {p : Platform} where
  unfoldable pub create :
      UserEntity → String → String → Bool → Option AuthFailureReason → Action p (Unit {0})
  create u ip user_agent success failure_reason = do
    n ← draw
    now ← time
    modify (λ w. record w {
      attempts =
          p.attempts.insert
            (record {
              id = p.uuid n;
              user_id = u.id;
              ip = ip;
              user_agent = user_agent;
              success = success;
              failure_reason = failure_reason;
              created_at = now;
            })
            w.attempts;
    })
