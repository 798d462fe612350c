-- ===== src/Hashes/Hints.antt =====
-- node-api-service/lib/endpoints/hashes.js: when the proofs are announced to be ready.
use chainpoint_core_erc.Prelude.{ℕ, ◌+◌, ◌*◌, ◌≤◌, ◌<◌, arith}
use chainpoint_core_erc.Utils.{add_seconds, add_minutes, format_date_iso8601_no_ms}
use chainpoint_core_erc.Hashes.Response.{hour_ms, start_of_hour, generate_processing_hints}

-- Let the local hour start less than one hour before that of UTC. Then the calendar proof is announced
-- for ten seconds after the submission, and the Bitcoin proof for more than one hour and at most two
-- hours after it, both to the second and rounded down; so the Bitcoin proof never comes first.
pub generate_processing_hints_bounds :
    (shift timestamp : ℕ)
    → shift < hour_ms
    → let hints = generate_processing_hints shift timestamp in
      (hints.cal * 1000 ≤ timestamp + 10000)
      × (timestamp + 10000 < hints.cal * 1000 + 1000)
      × (timestamp + 3600000 < hints.btc * 1000 + 1000)
      × (hints.btc * 1000 ≤ timestamp + 7200000)
      × (hints.cal < hints.btc)
unfolding generate_processing_hints start_of_hour add_seconds add_minutes format_date_iso8601_no_ms
generate_processing_hints_bounds shift timestamp h =
    (omega arith, omega arith, omega arith, omega arith, omega arith)
