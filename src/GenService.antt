-- ===== src/GenService.antt =====
-- node-proof-gen-service/server.js with node-lib/lib/models/Proof.js: a 'proof ready' message becomes
-- rows of the proofs table.
pub mod Links
pub mod Build
pub mod Verify
pub mod Settled
use Build.{GenEnv, cal_proof, btc_proof, map_result}
use chainpoint_core_erc.Prelude.{
  ℕ, ◌+◌, ◌*◌, Bool, true, false, Option, none, some, String, List, [], ◌∷◌, ◌++◌, map, ◌==◌,
  if◌then◌else◌,
}
use chainpoint_core_erc.Prelude.Lists.{filter_by, includes}
use chainpoint_core_erc.Exec.{
  Error, Result, ok, err, db_error, type_error, syntax_error, Exec, pure, throw, gets, lift,
  try_catch, ◌>>=◌, ◌>>◌,
}
use chainpoint_core_erc.World.{
  World, Stamped, AggRow, CalRow, AnchorBtcAggRow, BtcTxRow, BtcHeadRow, ProofRow, ack, nack,
}
use chainpoint_core_erc.World.Calls.{call, query, execute, settle}
use chainpoint_core_erc.World.Ops.{Proof}
use chainpoint_core_erc.CachedState.{
  get_agg_state_objects_by_hash_ids, get_cal_state_objects_by_agg_ids,
  get_anchor_btc_agg_state_objects_by_cal_ids, get_btctx_state_object_by_anchor_btc_agg_id,
  get_btchead_state_object_by_btctx_id,
}
use chainpoint_core_erc.CachedState.Tables.{upsert, find_in, destroy_until}
use chainpoint_core_erc.StateService.{ack_or_nack}

-- Proof.js

abbrev pub proof_expire_hours : ℕ
proof_expire_hours = 24

abbrev pub proof_row : Proof → ProofRow
proof_row proof = record { hash_id = proof.hash_id_core; proof = proof }

-- `INSERT … ON CONFLICT (hash_id) DO UPDATE SET proof = EXCLUDED.proof`, row by row
unfoldable pub upsert_all : ℕ → List Proof → List (Stamped ProofRow) → List (Stamped ProofRow)
upsert_all now [] rs = rs
upsert_all now (p ∷ ps) rs = upsert_all now ps (upsert (λ r. r.hash_id) now (proof_row p) rs)

abbrev pub has_repeat : List String → Bool
has_repeat [] = false
has_repeat (k ∷ ks) = if includes k ks then true else has_repeat ks

-- The database refuses a statement with no VALUES, and one that meets a row twice.
unfoldable pub write_proofs_bulk : List Proof → Exec World Bool
write_proofs_bulk [] = throw db_error
write_proofs_bulk (p ∷ ps) =
    if has_repeat (map (λ q. q.hash_id_core) (p ∷ ps)) then throw db_error else do
      execute db_error (λ w. record w { proofs = upsert_all w.clock (p ∷ ps) w.proofs })
      pure true

unfoldable pub get_proofs_by_hash_ids : List String → Exec World (List ProofRow)
get_proofs_by_hash_ids hash_ids = query db_error (λ w. find_in (λ r. r.hash_id) hash_ids w.proofs)

unfoldable pub prune_expired_proofs : Exec World ℕ
prune_expired_proofs = call db_error (λ w.
    let (n, rest) = destroy_until w.clock (proof_expire_hours * 60 * 60 * 1000) w.proofs in
    (n, record w { proofs = rest }))

-- server.js

-- an error of the write is logged, and the caller does not see it
unfoldable pub store_proofs : List Proof → Exec World (Unit {0})
store_proofs [] = pure tt
store_proofs (p ∷ ps) = try_catch (do write_proofs_bulk (p ∷ ps); pure tt) (λ _. pure tt)

unfoldable pub prune_proofs : Exec World (Unit {0})
prune_proofs = try_catch (do prune_expired_proofs; pure tt) (λ _. pure tt)

-- The `type` of a message; its content is the list of hash ids, or no JSON.
pub data ReadyType : Type 0 where
  cal_batch btc_batch eth unknown : ReadyType

pub record Ready : Type 0 where
  pub tag : ℕ
  pub type : ReadyType
  pub hash_ids : Option (List String)

module _ (env : GenEnv) where
  unfoldable pub cal_batch_work : List String → Exec World (Unit {0})
  cal_batch_work hash_ids = do
    agg_rows ← get_agg_state_objects_by_hash_ids hash_ids
    cal_rows ← get_cal_state_objects_by_agg_ids (map (λ r. r.agg_id) agg_rows)
    proofs ← lift (map_result (cal_proof env cal_rows) agg_rows)
    store_proofs (filter_by env.is_valid_schema proofs)

  -- `anchorBTCAggIds[0]` of no row is undefined, for which the query throws
  abbrev pub btctx_of : List AnchorBtcAggRow → Exec World (Option BtcTxRow)
  btctx_of [] = throw db_error
  btctx_of (aa ∷ rows) = get_btctx_state_object_by_anchor_btc_agg_id aa.anchor_btc_agg_id

  -- `btcTxStateRow.btctx_id` of null is a type error
  abbrev pub head_of : Option BtcTxRow → Exec World (BtcTxRow × Option BtcHeadRow)
  head_of none = throw type_error
  head_of (some tx) = do head ← get_btchead_state_object_by_btctx_id tx.btctx_id; pure (tx, head)

  -- the inner `try`: `none` is a read error, after which the message is acked
  unfoldable pub read_btc_states :
      List AnchorBtcAggRow → Exec World (Option (BtcTxRow × Option BtcHeadRow))
  read_btc_states anchor_rows =
      try_catch (do tx ← btctx_of anchor_rows; states ← head_of tx; pure (some states))
        (λ _. pure none)

  abbrev pub store_btc_proofs :
      List AggRow
      → List CalRow
      → List AnchorBtcAggRow
      → Option (BtcTxRow × Option BtcHeadRow)
      → Exec World (Unit {0})
  store_btc_proofs agg_rows cal_rows anchor_rows none = pure tt
  store_btc_proofs agg_rows cal_rows anchor_rows (some (tx, none)) = throw type_error
  store_btc_proofs agg_rows cal_rows anchor_rows (some (tx, some head)) = do
    proofs ← lift (map_result (btc_proof env cal_rows anchor_rows tx head) agg_rows)
    store_proofs (filter_by env.is_valid_schema proofs)

  unfoldable pub btc_batch_work : List String → Exec World (Unit {0})
  btc_batch_work hash_ids = do
    agg_rows ← get_agg_state_objects_by_hash_ids hash_ids
    cal_rows ← get_cal_state_objects_by_agg_ids (map (λ r. r.agg_id) agg_rows)
    anchor_rows ← get_anchor_btc_agg_state_objects_by_cal_ids (map (λ r. r.cal_id) cal_rows)
    states ← read_btc_states anchor_rows
    store_btc_proofs agg_rows cal_rows anchor_rows states

  abbrev pub consume_by_type : ℕ → ReadyType → List String → Exec World (Unit {0})
  consume_by_type tag cal_batch hash_ids = ack_or_nack tag (cal_batch_work hash_ids)
  consume_by_type tag btc_batch hash_ids = ack_or_nack tag (btc_batch_work hash_ids)
  consume_by_type tag eth hash_ids = settle (ack tag)
  consume_by_type tag unknown hash_ids = settle (ack tag)

  abbrev pub consume_parsed : ℕ → ReadyType → Option (List String) → Exec World (Unit {0})
  consume_parsed tag type none = throw syntax_error
  consume_parsed tag type (some hash_ids) = consume_by_type tag type hash_ids

  unfoldable pub consume_proof_ready_message : Ready → Exec World (Unit {0})
  consume_proof_ready_message msg = consume_parsed msg.tag msg.type msg.hash_ids
