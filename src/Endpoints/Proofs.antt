-- ===== src/Endpoints/Proofs.antt =====
-- node-api-service/lib/endpoints/proofs.js: the proofs of up to 250 hashes, read from the table that the
-- proof generation service writes.
use chainpoint_core_erc.Prelude.{
  Bool, true, Option, none, some, String, List, [], ◌∷◌, map, ◌==◌, ◌&&◌, leb, eqb, not,
  if◌then◌else◌,
}
use chainpoint_core_erc.Prelude.Lists.{length}
use chainpoint_core_erc.Exec.{Exec, pure, try_catch, ◌>>=◌}
use chainpoint_core_erc.World.{World, ProofRow}
use chainpoint_core_erc.World.Ops.{Proof}
use chainpoint_core_erc.GenService.{get_proofs_by_hash_ids}
use chainpoint_core_erc.UsageToken.Replies.{Reply, sent, invalid_argument, internal_server}

-- One item of the answer.
pub record ProofResult : Type 0 where
  pub hash_id : String
  pub proof : Option Proof

abbrev pub or_else : Option Proof → Option Proof → Option Proof
or_else (some p) o = some p
or_else none o = o

abbrev pub own_proof : String → ProofRow → Option Proof
own_proof hash_id r = if r.hash_id == hash_id then some r.proof else none

-- `proofsReturned[hashId]`: of two rows with an id, the later one counts.
abbrev pub returned_proof : String → List ProofRow → Option Proof
returned_proof hash_id [] = none
returned_proof hash_id (r ∷ rs) = or_else (returned_proof hash_id rs) (own_proof hash_id r)

abbrev pub all_valid : (String → Bool) → List String → Bool
all_valid is_uuid [] = true
all_valid is_uuid (x ∷ xs) = is_uuid x && all_valid is_uuid xs

unfoldable pub final_results : List String → List ProofRow → List ProofResult
final_results hash_ids rows =
    map (λ hash_id. record { hash_id = hash_id; proof = returned_proof hash_id rows }) hash_ids

unfoldable pub read_rows : List String → Exec World (Option (List ProofRow))
read_rows hash_ids =
    try_catch (do rows ← get_proofs_by_hash_ids hash_ids; pure (some rows)) (λ _. pure none)

unfoldable pub answer : List String → Option (List ProofRow) → Reply (List ProofResult)
answer hash_ids none = internal_server
answer hash_ids (some rows) = sent (final_results hash_ids rows)

-- `is_uuid` is package uuid-validate, for version 1; the ids are the trimmed parts of the header.
unfoldable pub get_proofs_by_ids :
    (String → Bool) → List String → Exec World (Reply (List ProofResult))
get_proofs_by_ids is_uuid hash_ids =
    if eqb (length hash_ids) 0
    then pure invalid_argument
    else if not (leb (length hash_ids) 250)
    then pure invalid_argument
    else if not (all_valid is_uuid hash_ids)
    then pure invalid_argument
    else (do rows ← read_rows hash_ids; pure (answer hash_ids rows))
