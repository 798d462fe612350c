-- ===== src/Hashes/Response.antt =====
-- node-api-service/lib/endpoints/hashes.js: the answer to a submitted hash, with the times when its proofs
-- will be ready.
use chainpoint_core_erc.Prelude.{
  ℕ, zero, suc, ◌+◌, ◌-◌, ◌*◌, ◌/◌, ◌%◌, Bool, String, List, [], ◌∷◌, ◌++◌, map, ltb, if◌then◌else◌,
}
use chainpoint_core_erc.Prelude.Lists.{length}
use chainpoint_core_erc.Exec.{ok, Exec}
use chainpoint_core_erc.Utils.{add_seconds, add_minutes, format_date_iso8601_no_ms, lower}
use chainpoint_core_erc.UsageToken.State.{ApiWorld}

-- What the endpoint takes from its environment: the mode; by how many milliseconds an hour of the
-- local time starts before one of UTC; the digest of package blake2s-js; and the text of package
-- uuid's version 1 id, the next one each time, for a time and the bytes of a node.
pub record HashEnv : Type 0 where
  pub private_network : Bool
  pub hour_shift : ℕ
  pub blake2s : List ℕ → List ℕ
  pub uuid_v1 : ℕ → ℕ → List ℕ → String

pub record ProcessingHints : Type 0 where
  pub cal : ℕ
  pub btc : ℕ

pub record HashResponse : Type 0 where
  pub hash_id : String
  pub hash : List ℕ
  pub submitted_at : ℕ
  pub processing_hints : ProcessingHints

abbrev pub hour_ms : ℕ
hour_ms = 60 * 60 * 1000

-- `date.setHours(date.getHours(), 0, 0, 0)`, in local time
unfoldable pub start_of_hour : ℕ → ℕ → ℕ
start_of_hour shift date = (date + shift) / hour_ms * hour_ms - shift

unfoldable pub generate_processing_hints : ℕ → ℕ → ProcessingHints
generate_processing_hints shift timestamp = record {
  cal = format_date_iso8601_no_ms (add_seconds timestamp 10);
  btc = format_date_iso8601_no_ms (start_of_hour shift (add_minutes timestamp 120));
}

abbrev pub decimal_on : ℕ → ℕ → List ℕ
decimal_on zero n = []
decimal_on (suc fuel) n =
    let front = decimal_on fuel (n / 10) in (if ltb n 10 then [] else front) ++ (b'0' + n % 10) ∷ []

-- `n.toString()`; a number is at least as large as the number of its digits
unfoldable pub decimal : ℕ → List ℕ
decimal n = decimal_on (suc n) n

-- `[timestampMS, its length, hash, its length].join(':')`
unfoldable pub hash_str : ℕ → List ℕ → List ℕ
hash_str timestamp hash =
    decimal timestamp
    ++ b':'
      ∷ (decimal (length (decimal timestamp)) ++ b':' ∷ (hash ++ b':' ∷ decimal (length hash)))

unfoldable pub generate_post_hash_response : HashEnv → List ℕ → Exec ApiWorld HashResponse
generate_post_hash_response env hash w =
    let lowered = map lower hash in
    let hash_id = env.uuid_v1 w.uuids w.clock (1 ∷ env.blake2s (hash_str w.clock lowered)) in
    (
      ok (record {
        hash_id = hash_id;
        hash = lowered;
        submitted_at = format_date_iso8601_no_ms w.clock;
        processing_hints = generate_processing_hints env.hour_shift w.clock;
      }),
      record w { uuids = w.uuids + 1 },
    )
