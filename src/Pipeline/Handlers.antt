-- ===== src/Pipeline/Handlers.antt =====
-- node-proof-state-service/server.js: every handler, and the pruning, keeps the database consistent, whatever
-- the outcomes of the calls.
use chainpoint_core_erc.Prelude.{
  ℕ, ◌≡◌, refl, Option, none, some, String, List, [], ◌∷◌, ◌++◌, map, arith,
}
use chainpoint_core_erc.Prelude.Lists.{All, All-map, All-parts}
use chainpoint_core_erc.Exec.{Exec, throw, publish_error, type_error}
use chainpoint_core_erc.Exec.Keeps.{
  Preorder, Keeps, Keeps-bind, Keeps-throw, Keeps-switch, keeps_rules,
}
use chainpoint_core_erc.World.{World, CalRow, Message}
use chainpoint_core_erc.World.Calls.{execute}
use chainpoint_core_erc.CachedState.{write_cal_state_objects_bulk}
use chainpoint_core_erc.CachedState.Frame.Generic.{Keeps-execute}
use chainpoint_core_erc.StateService.{
  for_each, send_to_queue, publish, ack_or_nack, cal_state_object, cal_state_write_batch_size,
  aggregation_work, calendar_batch_work, anchor_btc_agg_batch_work, btctx_work, btcmon_work,
  consume_aggregation_message, consume_calendar_batch_message, consume_anchor_btc_agg_batch_message,
  consume_btctx_message, consume_btcmon_message, dispatch, process_message, prune_state_data,
}
use chainpoint_core_erc.StateService.Batches.{batches, flatten, batches_lem}
use chainpoint_core_erc.StateService.Loop.{for_each-Keeps}
use chainpoint_core_erc.StateService.Messages.{
  not_json, without_proof_data, parsed, AggMessage, CalMessage, AnchorMessage, BtcTxMessage,
  BtcMonMessage, Content, aggregator, cal_batch, anchor_btc_agg_batch, btctx, btcmon, unknown,
  Delivery,
}
use chainpoint_core_erc.Pipeline.Keeping.{
  consistent, untouched, consistent-IsFree, write_cal-Keeps, get_hash_ids-Keeps,
  get_hash_ids_by_btctx_id-Keeps, write_agg-Keeps, write_anchor-Keeps, write_btctx-Keeps,
  write_btchead-Keeps, settle-Keeps, prune_agg-Keeps, prune_cal-Keeps, prune_anchor-Keeps,
  prune_btctx-Keeps, prune_btchead-Keeps,
}

-- Every item of the message is the content of its aggregation.
abbrev pub IsTrueMessage : (String → CalRow) → CalMessage → Type 0
IsTrueMessage content m = All (λ i. cal_state_object m i ≡ content i.agg_id) m.proof_data

-- Only a calendar message is held to the contents.
abbrev pub IsTrueDelivery : (String → CalRow) → Option Delivery → Type 0
IsTrueDelivery content none = Unit
IsTrueDelivery content (some msg) = elim msg.content [
  | cal_batch (parsed m) ↦ IsTrueMessage content m
  | _ ↦ Unit
]

for_each-Keeps_all :
    {r : Preorder World} {A B : Type 0} (P : A → Type 0) (f : A → Exec World B) (xs : List A)
    → ((a : A) → P a → Keeps r (f a))
    → All P xs
    → Keeps r (for_each f xs)
unfolding for_each
for_each-Keeps_all P f [] h all = search keeps_rules
for_each-Keeps_all P f (x ∷ xs) h all =
    Keeps-bind (f x) _ (h x all.0) (λ _. for_each-Keeps_all P f xs h all.1)

-- What holds of all items holds of the items of each batch.
All-batches :
    {A : Type 0} (P : A → Type 0) (bs : List (List A)) → All P (flatten bs) → All (All P) bs
All-batches P [] h = tt
All-batches P (b ∷ bs) h =
    let (front, back) = All-parts P b (flatten bs) h in (front, All-batches P bs back)

module _ (content : String → CalRow) where
  send-Keeps : (m : Message) → Keeps (consistent content) (send_to_queue m)
  unfolding send_to_queue
  send-Keeps m =
      Keeps-switch (λ w. w.channel)
        (execute publish_error (λ v. record v { sent = v.sent ++ m ∷ [] })) (throw type_error)
        (Keeps-execute (consistent-IsFree content) _ _
          (λ w p. untouched content w _ refl refl refl refl p))
        (Keeps-throw _)

  publish-Keeps : (m : Message) → Keeps (consistent content) (publish m)
  unfolding publish
  publish-Keeps m = search (keeps_rules, send-Keeps)

ruleset work_rules = (
  keeps_rules, for_each-Keeps, publish-Keeps, get_hash_ids-Keeps, get_hash_ids_by_btctx_id-Keeps,
  write_agg-Keeps, write_anchor-Keeps, write_btctx-Keeps, write_btchead-Keeps, settle-Keeps,
)

module _ (content : String → CalRow) where
  abbrev R : Preorder World
  R = consistent content

  aggregation_work-Keeps : (m : AggMessage) → Keeps R (aggregation_work m)
  unfolding aggregation_work
  aggregation_work-Keeps m = search work_rules

  calendar_batch_work-Keeps :
      (m : CalMessage) → IsTrueMessage content m → Keeps R (calendar_batch_work m)
  unfolding calendar_batch_work
  calendar_batch_work-Keeps m h =
      let objs = map (cal_state_object m) m.proof_data in
      let contents = All-map (λ (a : CalRow). a ≡ content a.agg_id) _ m.proof_data h in
      let (whole, _) = batches_lem cal_state_write_batch_size objs (omega arith) in
      Keeps-bind _ _ (get_hash_ids-Keeps content _) (λ ids.
        Keeps-bind _ _
          (for_each-Keeps_all _ write_cal_state_objects_bulk _ (write_cal-Keeps content) (
            All-batches (λ (a : CalRow). a ≡ content a.agg_id)
              (batches cal_state_write_batch_size objs) (rw whole contents)))
          (λ _. for_each-Keeps publish _ (publish-Keeps content)))

  anchor_btc_agg_batch_work-Keeps : (m : AnchorMessage) → Keeps R (anchor_btc_agg_batch_work m)
  unfolding anchor_btc_agg_batch_work
  anchor_btc_agg_batch_work-Keeps m = search work_rules

  btctx_work-Keeps : (m : BtcTxMessage) → Keeps R (btctx_work m)
  unfolding btctx_work
  btctx_work-Keeps m = search work_rules

  btcmon_work-Keeps : (m : BtcMonMessage) → Keeps R (btcmon_work m)
  unfolding btcmon_work
  btcmon_work-Keeps m = search work_rules depth 7

  pub handler-Keeps :
      (tag : ℕ) (work : Exec World (Unit {0})) → Keeps R work → Keeps R (ack_or_nack tag work)
  unfolding ack_or_nack
  handler-Keeps tag work k = search work_rules

  dispatch-Keeps :
      (tag : ℕ) (c : Content)
      → IsTrueDelivery content (some (record { tag = tag; content = c }))
      → Keeps R (dispatch tag c)
  unfolding consume_aggregation_message consume_calendar_batch_message
      consume_anchor_btc_agg_batch_message consume_btctx_message consume_btcmon_message
  dispatch-Keeps tag (aggregator not_json) h = Keeps-throw _
  dispatch-Keeps tag (aggregator without_proof_data) h = Keeps-throw _
  dispatch-Keeps tag (cal_batch not_json) h = Keeps-throw _
  dispatch-Keeps tag (cal_batch without_proof_data) h = Keeps-throw _
  dispatch-Keeps tag (anchor_btc_agg_batch not_json) h = Keeps-throw _
  dispatch-Keeps tag (anchor_btc_agg_batch without_proof_data) h = Keeps-throw _
  dispatch-Keeps tag (btctx none) h = Keeps-throw _
  dispatch-Keeps tag (btcmon none) h = Keeps-throw _
  dispatch-Keeps tag unknown h = settle-Keeps content _
  dispatch-Keeps tag (aggregator (parsed m)) h = handler-Keeps tag _ (aggregation_work-Keeps m)
  dispatch-Keeps tag (cal_batch (parsed m)) h = handler-Keeps tag _ (calendar_batch_work-Keeps m h)
  dispatch-Keeps tag (anchor_btc_agg_batch (parsed m)) h =
      handler-Keeps tag _ (anchor_btc_agg_batch_work-Keeps m)
  dispatch-Keeps tag (btctx (some m)) h = handler-Keeps tag _ (btctx_work-Keeps m)
  dispatch-Keeps tag (btcmon (some m)) h = handler-Keeps tag _ (btcmon_work-Keeps m)

  pub process_message-Keeps :
      (msg : Option Delivery) → IsTrueDelivery content msg → Keeps R (process_message msg)
  unfolding process_message
  process_message-Keeps none h = search keeps_rules
  process_message-Keeps (some msg) h = dispatch-Keeps msg.tag msg.content h

  pub prune_state_data-Keeps : Keeps R prune_state_data
  unfolding prune_state_data
  prune_state_data-Keeps =
      search
        (
          keeps_rules, prune_agg-Keeps, prune_cal-Keeps, prune_anchor-Keeps, prune_btctx-Keeps,
          prune_btchead-Keeps,
        )
        depth 12
