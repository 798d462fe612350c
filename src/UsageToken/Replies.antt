-- ===== src/UsageToken/Replies.antt =====
-- What the API's handlers answer, and their early returns.
use chainpoint_core_erc.Prelude.{Bool, Option, none, some, if◌then◌else◌}
use chainpoint_core_erc.Exec.{Exec, pure}
use chainpoint_core_erc.UsageToken.State.{ApiWorld}

-- What is sent, or a restify error handed to `next`.
pub data Reply (A : Type 0) : Type 0 where
  sent : A → Reply A
  invalid_argument bad_request unauthorized too_many_requests not_found internal_server : Reply A

module _ {R : Type 0} where
  -- `if (!b) return next(reply)`
  unfoldable pub ensure : Bool → Reply R → Exec ApiWorld (Reply R) → Exec ApiWorld (Reply R)
  ensure b reply next = if b then next else pure reply

  -- `if (o === null) return next(reply)`
  unfoldable pub ensure_some :
      {A : Type 0} → Option A → Reply R → (A → Exec ApiWorld (Reply R)) → Exec ApiWorld (Reply R)
  ensure_some none reply next = pure reply
  ensure_some (some a) reply next = next a
