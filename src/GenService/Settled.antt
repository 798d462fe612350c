-- ===== src/GenService/Settled.antt =====
-- Every 'proof ready' message is acked or nacked exactly once, and a failed write of the proofs is
-- acked like a successful one.
use chainpoint_core_erc.Prelude.{
  ℕ, ◌≡◌, refl, sym, ap, ◌∙◌, map, inl, true, Option, none, some, String, List, [], ◌∷◌, arith,
}
use chainpoint_core_erc.Exec.{Result, ok, lift, pure, throw, try_catch, ◌>>=◌}
use chainpoint_core_erc.Exec.Keeps.{Keeps, keeps_rules}
use chainpoint_core_erc.World.{
  ack, World, AggRow, CalRow, AnchorBtcAggRow, BtcTxRow, BtcHeadRow, Outcome, refused,
}
use chainpoint_core_erc.World.Ops.{Proof}
use chainpoint_core_erc.Prelude.Lists.{filter_by}
use chainpoint_core_erc.CachedState.{
  get_agg_state_objects_by_hash_ids, get_cal_state_objects_by_agg_ids,
}
use chainpoint_core_erc.World.Calls.{execute, call}
use chainpoint_core_erc.CachedState.Frame.Functions
use chainpoint_core_erc.StateService.Settled.{
  ack_or_nack-settled, ack_or_nack-acked, settlement, unsettled, Keeps-outside, IsSettledOnce,
  handler-settles, settle_unknown,
}
use chainpoint_core_erc.GenService.Build.{GenEnv, cal_proof, map_result}
use chainpoint_core_erc.GenService.{
  write_proofs_bulk, store_proofs, ReadyType, cal_batch, btc_batch, eth, unknown, cal_batch_work,
  btctx_of, head_of, read_btc_states, store_btc_proofs, btc_batch_work, consume_by_type,
  consume_proof_ready_message,
}

write_proofs_bulk-Keeps : (ps : List Proof) → Keeps unsettled (write_proofs_bulk ps)
unfolding write_proofs_bulk execute call throw pure ◌>>=◌
write_proofs_bulk-Keeps [] = record { at = λ w. (refl, refl) }
write_proofs_bulk-Keeps (p ∷ ps) = record { at = λ w. ground arith }

store_proofs-Keeps : (ps : List Proof) → Keeps unsettled (store_proofs ps)
unfolding store_proofs
store_proofs-Keeps [] = search keeps_rules
store_proofs-Keeps (p ∷ ps) = search (keeps_rules, write_proofs_bulk-Keeps)

ruleset gen_rules = (
  keeps_rules, Keeps-outside, store_proofs-Keeps, Functions.get_agg_state_objects_by_hash_ids-Keeps,
  Functions.get_cal_state_objects_by_agg_ids-Keeps,
  Functions.get_anchor_btc_agg_state_objects_by_cal_ids-Keeps,
  Functions.get_btctx_state_object_by_anchor_btc_agg_id-Keeps,
  Functions.get_btchead_state_object_by_btctx_id-Keeps,
)

module _ (env : GenEnv) where
  cal_batch_work-Keeps : (ids : List String) → Keeps unsettled (cal_batch_work env ids)
  unfolding cal_batch_work
  cal_batch_work-Keeps ids = search gen_rules depth 9

  btctx_of-Keeps : (rows : List AnchorBtcAggRow) → Keeps unsettled (btctx_of env rows)
  btctx_of-Keeps [] = search gen_rules
  btctx_of-Keeps (aa ∷ rows) = search gen_rules

  head_of-Keeps : (tx : Option BtcTxRow) → Keeps unsettled (head_of env tx)
  head_of-Keeps none = search gen_rules
  head_of-Keeps (some tx) = search gen_rules

  read_btc_states-Keeps : (rows : List AnchorBtcAggRow) → Keeps unsettled (read_btc_states env rows)
  unfolding read_btc_states
  read_btc_states-Keeps rows = search (gen_rules, btctx_of-Keeps, head_of-Keeps) depth 9

  store_btc_proofs-Keeps :
      (agg_rows : List AggRow) (cal_rows : List CalRow) (anchor_rows : List AnchorBtcAggRow)
      (states : Option (BtcTxRow × Option BtcHeadRow))
      → Keeps unsettled (store_btc_proofs env agg_rows cal_rows anchor_rows states)
  store_btc_proofs-Keeps agg_rows cal_rows anchor_rows none = search gen_rules
  store_btc_proofs-Keeps agg_rows cal_rows anchor_rows (some (tx, none)) = search gen_rules
  store_btc_proofs-Keeps agg_rows cal_rows anchor_rows (some (tx, some head)) = search gen_rules

  btc_batch_work-Keeps : (ids : List String) → Keeps unsettled (btc_batch_work env ids)
  unfolding btc_batch_work
  btc_batch_work-Keeps ids =
      search (gen_rules, read_btc_states-Keeps, store_btc_proofs-Keeps) depth 12

  by_type-settles :
      (tag : ℕ) (type : ReadyType) (ids : List String) (w : World)
      → w.channel ≡ true
      → IsSettledOnce tag w (consume_by_type env tag type ids w).1
  by_type-settles tag cal_batch ids w c = handler-settles tag w c _ (cal_batch_work-Keeps ids)
  by_type-settles tag btc_batch ids w c = handler-settles tag w c _ (btc_batch_work-Keeps ids)
  by_type-settles tag eth ids w c = inl (settle_unknown tag w c)
  by_type-settles tag unknown ids w c = inl (settle_unknown tag w c)

-- On an open channel, whatever the outcomes of the database, cache and queue calls and whatever the
-- environment, a 'proof ready' message that carries hash ids is acked or nacked exactly once, and no
-- other message is.
pub consume_proof_ready_message_settles_once :
    (env : GenEnv) (tag : ℕ) (type : ReadyType) (ids : List String) (w : World)
    → w.channel ≡ true
    → IsSettledOnce tag w
        (consume_proof_ready_message env
          (record { tag = tag; type = type; hash_ids = some ids })
          w).1
unfolding consume_proof_ready_message
consume_proof_ready_message_settles_once env tag type ids w c = by_type-settles env tag type ids w c

store_proofs_refused :
    (ps : List Proof) (later : List Outcome) (w : World)
    → w.outcomes ≡ refused ∷ later
    → ((store_proofs ps w).0 ≡ ok tt) × ((store_proofs ps w).1.proofs ≡ w.proofs)
unfolding store_proofs write_proofs_bulk execute call throw pure try_catch ◌>>=◌
store_proofs_refused [] later w h = (refl, refl)
store_proofs_refused (p ∷ ps) later w h = ground arith

-- How the reads of a calendar batch went: the rows they gave, the proofs built of these, and the
-- state that they left.
pub record IsRead (env : GenEnv) (ids : List String) (w v : World) : Type 0 where
  pub agg_rows : List AggRow
  pub cal_rows : List CalRow
  pub proofs : List Proof
  pub between : World
  pub read_agg : get_agg_state_objects_by_hash_ids ids w ≡ (ok agg_rows, between)
  pub read_cal :
      get_cal_state_objects_by_agg_ids (map (λ r. r.agg_id) agg_rows) between ≡ (ok cal_rows, v)
  pub built : map_result (cal_proof env cal_rows) agg_rows ≡ ok proofs

-- The reads touch neither the proofs nor the channel.
read_same :
    (env : GenEnv) (ids : List String) (w v : World) → IsRead env ids w v → v.proofs ≡ w.proofs
read_same env ids w v r =
    let agg = (Functions.get_agg_state_objects_by_hash_ids-Keeps ids).at w in
    let cal =
      (Functions.get_cal_state_objects_by_agg_ids-Keeps (map (λ x. x.agg_id) r.agg_rows)).at
        r.between in
    ap (λ (p : Result (List CalRow) × World). p.1.proofs) (sym r.read_cal)
    ∙ cal.proofs
    ∙ ap (λ (p : Result (List AggRow) × World). p.1.proofs) (sym r.read_agg)
    ∙ agg.proofs

cal_batch_work-refused :
    (env : GenEnv) (ids : List String) (later : List Outcome) (w v : World)
    → IsRead env ids w v
    → v.outcomes ≡ refused ∷ later
    → ((cal_batch_work env ids w).0 ≡ ok tt) × ((cal_batch_work env ids w).1.proofs ≡ v.proofs)
unfolding cal_batch_work lift ◌>>=◌
cal_batch_work-refused env ids later w v r h =
    rw (r.read_agg, r.read_cal, r.built)
      (store_proofs_refused (filter_by env.is_valid_schema r.proofs) later v h)

-- Where the rows of a calendar batch were read and proofs built of them, and the database then refuses
-- the write: on an open channel the message is acked all the same, so that it is not delivered again,
-- and no other message is settled, and the table of proofs is as it was before the message.
pub consume_proof_ready_message_unstored :
    (env : GenEnv) (tag : ℕ) (ids : List String) (later : List Outcome) (w v : World)
    → w.channel ≡ true
    → IsRead env ids w v
    → v.outcomes ≡ refused ∷ later
    → let w' =
        (consume_proof_ready_message env
          (record { tag = tag; type = cal_batch; hash_ids = some ids })
          w).1 in
      (w'.settled ≡ ack tag ∷ w.settled) × (w'.proofs ≡ w.proofs)
unfolding consume_proof_ready_message
consume_proof_ready_message_unstored env tag ids later w v c r h =
    let (worked, same) = cal_batch_work-refused env ids later w v r h in
    let settled =
      ack_or_nack-settled tag w c (cal_batch_work env ids) (cal_batch_work-Keeps env ids)
      ∙ ap (λ x. settlement tag x ∷ w.settled) worked in
    let (_, final) =
      ack_or_nack-acked tag (cal_batch_work env ids) w c (cal_batch_work-Keeps env ids) settled in
    (settled, ap (λ (x : World). x.proofs) final ∙ same ∙ read_same env ids w v r)
