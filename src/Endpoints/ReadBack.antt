-- ===== src/Endpoints/ReadBack.antt =====
-- node-api-service/lib/endpoints/proofs.js over node-lib/lib/models/Proof.js: the proofs that were written
-- are the ones that are read.
use chainpoint_core_erc.Prelude.{
  ◌≡◌, refl, ap, ap₂, ◌∙◌, ℕ, Bool, true, false, some, String, List, [], ◌∷◌, map, ◌==◌, ◌||◌, leb,
  eqb, eq_refl, arith,
}
use chainpoint_core_erc.Prelude.Lists.{length, includes, All}
use chainpoint_core_erc.Exec.{ok, pure, throw, try_catch, ◌>>=◌}
use chainpoint_core_erc.World.{World, Stamped, ProofRow}
use chainpoint_core_erc.World.Ops.{Proof}
use chainpoint_core_erc.World.Calls.{call, query, execute}
use chainpoint_core_erc.CachedState.Tables.{find_in}
use chainpoint_core_erc.GenService.{
  proof_row, upsert_all, write_proofs_bulk, get_proofs_by_hash_ids,
}
use chainpoint_core_erc.UsageToken.Replies.{sent}
use chainpoint_core_erc.Endpoints.Proofs.{
  ProofResult, or_else, returned_proof, all_valid, final_results, read_rows, answer,
  get_proofs_by_ids,
}
use chainpoint_core_erc.Endpoints.Upserted.{
  row_key, rows, IsKeyed, find_in-returned, upsert_all-returned,
}

includes-tail :
    (y : String) (ys xs : List String)
    → All (λ x. includes x ys ≡ true) xs
    → All (λ x. includes x (y ∷ ys) ≡ true) xs
includes-tail y ys [] h = tt
includes-tail y ys (x ∷ xs) h = (or-true (x == y) (includes x ys) h.0, includes-tail y ys xs h.1)
  where
    or-true : (a b : Bool) → b ≡ true → a || b ≡ true
    or-true true b e = refl
    or-true false b e = e

pub includes_self : (xs : List String) → All (λ x. includes x xs ≡ true) xs
includes_self [] = tt
includes_self (x ∷ xs) = (rw (eq_refl x) refl, includes-tail x xs xs (includes_self xs))

-- A request that passes the checks.
pub record IsRequest (is_uuid : String → Bool) (hash_ids : List String) : Type 0 where
  pub some_ids : eqb (length hash_ids) 0 ≡ false
  pub few : leb (length hash_ids) 250 ≡ true
  pub valid : all_valid is_uuid hash_ids ≡ true

-- The proof that was written for the id, or else the one of the table.
unfoldable pub written_or_stored : List Proof → List (Stamped ProofRow) → String → ProofResult
written_or_stored ps rs id = record {
  hash_id = id;
  proof = or_else (returned_proof id (map proof_row ps)) (returned_proof id (rows rs));
}

module _ (now : ℕ) (ps : List Proof) (rs : List (Stamped ProofRow)) (k : IsKeyed rs) where
  final_results-eq :
      (all ids : List String)
      → All (λ x. includes x all ≡ true) ids
      → final_results ids (find_in row_key all (upsert_all now ps rs))
        ≡ map (written_or_stored ps rs) ids
  unfolding final_results written_or_stored
  final_results-eq all [] h = refl
  final_results-eq all (id ∷ ids) h =
      ap₂ (λ p l. record { hash_id = id; proof = p } ∷ l)
        (find_in-returned id all (upsert_all now ps rs) h.0 ∙ upsert_all-returned id now ps rs k)
        (final_results-eq all ids h.1)

write_proofs_bulk-proofs :
    (ps : List Proof) (w : World) (b : Bool)
    → (write_proofs_bulk ps w).0 ≡ ok b
    → (write_proofs_bulk ps w).1.proofs ≡ upsert_all w.clock ps w.proofs
unfolding write_proofs_bulk execute call throw pure ◌>>=◌
write_proofs_bulk-proofs [] w b h = absurd (cc h)
write_proofs_bulk-proofs (p ∷ ps) w b h = ground arith

pub read_rows-quiet :
    (ids : List String) (w : World)
    → w.outcomes ≡ []
    → (read_rows ids w).0 ≡ ok (some (find_in row_key ids w.proofs))
unfolding read_rows get_proofs_by_hash_ids query call try_catch pure ◌>>=◌
read_rows-quiet ids w h = rw h refl

pub get_proofs_by_ids-answer :
    (is_uuid : String → Bool) (ids : List String) (w : World) (rows : List ProofRow)
    → IsRequest is_uuid ids
    → (read_rows ids w).0 ≡ ok (some rows)
    → (get_proofs_by_ids is_uuid ids w).0 ≡ ok (sent (final_results ids rows))
unfolding get_proofs_by_ids answer pure ◌>>=◌
get_proofs_by_ids-answer is_uuid ids w rows r h = rw (r.some_ids, r.few, r.valid, h) refl

-- Where the keys of the table of proofs are distinct: when a bulk write of proofs has returned and the
-- call that reads does not fail, a request that passes the checks is answered, for each id in the
-- order of the request, with the last proof that was written for the id or, if there is none, with
-- the proof that was stored before, or null.
pub get_proofs_by_ids-write_proofs_bulk :
    (is_uuid : String → Bool) (ids : List String) (ps : List Proof) (w : World) (b : Bool)
    → IsRequest is_uuid ids
    → IsKeyed w.proofs
    → (write_proofs_bulk ps w).0 ≡ ok b
    → (write_proofs_bulk ps w).1.outcomes ≡ []
    → (get_proofs_by_ids is_uuid ids (write_proofs_bulk ps w).1).0
      ≡ ok (sent (map (written_or_stored ps w.proofs) ids))
get_proofs_by_ids-write_proofs_bulk is_uuid ids ps w b r k h quiet =
    get_proofs_by_ids-answer is_uuid ids (write_proofs_bulk ps w).1 _ r (
      read_rows-quiet ids (write_proofs_bulk ps w).1 quiet
      ∙ ap (λ rs. ok (some (find_in row_key ids rs))) (write_proofs_bulk-proofs ps w b h))
    ∙ ap (λ l. ok (sent l)) (final_results-eq w.clock ps w.proofs k ids ids (includes_self ids))
