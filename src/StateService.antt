-- ===== src/StateService.antt =====
-- node-proof-state-service/server.js: each message of the incoming queue becomes rows of the proof
-- state tables, and some are followed by 'proof ready' messages for the proof generator.
pub mod Links
pub mod Messages
pub mod Batches
pub mod Loop
pub mod Settled
pub mod Complete
pub mod Acks
use Messages.{
  AggItem, AggMessage, CalItem, CalMessage, AnchorItem, AnchorMessage, BtcTxMessage, BtcMonMessage,
  Parsed, not_json, without_proof_data, parsed, Content, aggregator, cal_batch,
  anchor_btc_agg_batch, btctx, btcmon, unknown, Delivery,
}
use Batches.{batches}
use chainpoint_core_erc.Prelude.{
  ℕ, Bool, true, false, Option, none, some, String, List, [], ◌∷◌, ◌++◌, map, if◌then◌else◌,
}
use chainpoint_core_erc.Exec.{
  Error, publish_error, type_error, syntax_error, Exec, pure, throw, try_catch, ◌>>=◌, ◌>>◌,
}
use chainpoint_core_erc.World.{
  World, AggRow, CalRow, AnchorBtcAggRow, Message, Settlement, ack, nack,
}
use chainpoint_core_erc.World.Calls.{execute, settle}
use chainpoint_core_erc.CachedState.{
  get_hash_ids_by_agg_ids, get_hash_ids_by_btctx_id, write_agg_state_objects_bulk,
  write_cal_state_objects_bulk, write_anchor_btc_agg_state_objects, write_btctx_state_object,
  write_btchead_state_object, prune_agg_states, prune_cal_states, prune_anchor_btc_agg_states,
  prune_btctx_states, prune_btchead_states,
}

abbrev pub cal_state_write_batch_size : ℕ
cal_state_write_batch_size = 200

abbrev pub cal_proof_gen_batch_size : ℕ
cal_proof_gen_batch_size = 2500

abbrev pub anchor_btc_state_write_batch_size : ℕ
anchor_btc_state_write_batch_size = 200

abbrev pub btc_proof_gen_batch_size : ℕ
btc_proof_gen_batch_size = 2500

-- A loop that awaits `f` on each item.
unfoldable pub for_each : {A B : Type 0} → (A → Exec World B) → List A → Exec World (Unit {0})
for_each f [] = pure tt
for_each f (x ∷ xs) = do f x; for_each f xs

-- `amqpChannel.sendToQueue(…)`; every error is thrown again as one of publishing
unfoldable pub send_to_queue : Message → Exec World (Unit {0})
send_to_queue m w =
    if w.channel
    then execute publish_error (λ v. record v { sent = v.sent ++ m ∷ [] }) w
    else throw type_error w

unfoldable pub publish : Message → Exec World (Unit {0})
publish m = try_catch (send_to_queue m) (λ _. throw publish_error)

-- `try { work; amqpChannel.ack(msg) } catch { amqpChannel.nack(msg) }`
unfoldable pub ack_or_nack : ℕ → Exec World (Unit {0}) → Exec World (Unit {0})
ack_or_nack tag work = try_catch (do work; settle (ack tag)) (λ _. settle (nack tag))

abbrev pub agg_state_object : AggMessage → AggItem → AggRow
agg_state_object m item = record {
  hash_id = item.hash_id;
  hash = item.hash;
  agg_id = m.agg_id;
  agg_state = record { ops = item.proof };
  agg_root = m.agg_root;
}

abbrev pub cal_state_object : CalMessage → CalItem → CalRow
cal_state_object m item = record {
  agg_id = item.agg_id;
  cal_id = m.cal_id;
  cal_state = record { ops = item.proof; anchor = m.anchor };
}

abbrev pub anchor_btc_agg_state_object : AnchorMessage → AnchorItem → AnchorBtcAggRow
anchor_btc_agg_state_object m item = record {
  cal_id = item.cal_id;
  anchor_btc_agg_id = m.anchor_btc_agg_id;
  anchor_btc_agg_state = record { ops = item.proof };
}

-- The work inside each handler's `try`, up to the ack.

unfoldable pub aggregation_work : AggMessage → Exec World (Unit {0})
aggregation_work m = do
  write_agg_state_objects_bulk (map (agg_state_object m) m.proof_data)
  pure tt

unfoldable pub calendar_batch_work : CalMessage → Exec World (Unit {0})
calendar_batch_work m = do
  let state_objs = map (cal_state_object m) m.proof_data
  hash_ids ← get_hash_ids_by_agg_ids (map (λ r. r.agg_id) state_objs)
  for_each write_cal_state_objects_bulk (batches cal_state_write_batch_size state_objs)
  for_each publish (map Message.cal_batch (batches cal_proof_gen_batch_size hash_ids))

unfoldable pub anchor_btc_agg_batch_work : AnchorMessage → Exec World (Unit {0})
anchor_btc_agg_batch_work m =
    for_each write_anchor_btc_agg_state_objects
      (batches anchor_btc_state_write_batch_size (map (anchor_btc_agg_state_object m) m.proof_data))

unfoldable pub btctx_work : BtcTxMessage → Exec World (Unit {0})
btctx_work m = do
  write_btctx_state_object (record {
    anchor_btc_agg_id = m.anchor_btc_agg_id;
    btctx_id = m.btctx_id;
    btctx_state = m.btctx_state;
  })
  pure tt

unfoldable pub btcmon_work : BtcMonMessage → Exec World (Unit {0})
btcmon_work m = do
  hash_ids ← get_hash_ids_by_btctx_id m.btctx_id
  write_btchead_state_object (m.btctx_id, m.btchead_height, m.btchead_state)
  for_each publish (map Message.btc_batch (batches btc_proof_gen_batch_size hash_ids))

-- The handlers. The content is parsed outside the `try`.

unfoldable pub consume_aggregation_message : ℕ → Parsed AggMessage → Exec World (Unit {0})
consume_aggregation_message tag not_json = throw syntax_error
consume_aggregation_message tag without_proof_data = throw type_error
consume_aggregation_message tag (parsed m) = ack_or_nack tag (aggregation_work m)

unfoldable pub consume_calendar_batch_message : ℕ → Parsed CalMessage → Exec World (Unit {0})
consume_calendar_batch_message tag not_json = throw syntax_error
consume_calendar_batch_message tag without_proof_data = throw type_error
consume_calendar_batch_message tag (parsed m) = ack_or_nack tag (calendar_batch_work m)

unfoldable pub consume_anchor_btc_agg_batch_message :
    ℕ → Parsed AnchorMessage → Exec World (Unit {0})
consume_anchor_btc_agg_batch_message tag not_json = throw syntax_error
consume_anchor_btc_agg_batch_message tag without_proof_data = throw type_error
consume_anchor_btc_agg_batch_message tag (parsed m) = ack_or_nack tag (anchor_btc_agg_batch_work m)

unfoldable pub consume_btctx_message : ℕ → Option BtcTxMessage → Exec World (Unit {0})
consume_btctx_message tag none = throw syntax_error
consume_btctx_message tag (some m) = ack_or_nack tag (btctx_work m)

unfoldable pub consume_btcmon_message : ℕ → Option BtcMonMessage → Exec World (Unit {0})
consume_btcmon_message tag none = throw syntax_error
consume_btcmon_message tag (some m) = ack_or_nack tag (btcmon_work m)

abbrev pub dispatch : ℕ → Content → Exec World (Unit {0})
dispatch tag (aggregator m) = consume_aggregation_message tag m
dispatch tag (cal_batch m) = consume_calendar_batch_message tag m
dispatch tag (anchor_btc_agg_batch m) = consume_anchor_btc_agg_batch_message tag m
dispatch tag (btctx m) = consume_btctx_message tag m
dispatch tag (btcmon m) = consume_btcmon_message tag m
dispatch tag unknown = settle (ack tag)

-- `none` is the null that the client delivers when its consumer is cancelled. An error that comes
-- out is an unhandled rejection.
unfoldable pub process_message : Option Delivery → Exec World (Unit {0})
process_message none = pure tt
process_message (some msg) = dispatch msg.tag msg.content

unfoldable pub prune_state_data : Exec World (Unit {0})
prune_state_data =
    try_catch
      (do
        prune_agg_states
        prune_cal_states
        prune_anchor_btc_agg_states
        prune_btctx_states
        prune_btchead_states
        pure tt)
      (λ _. pure tt)
