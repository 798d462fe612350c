-- ===== src/StateService/Settled.antt =====
-- Every message is acked or nacked exactly once.
use chainpoint_core_erc.Prelude.{
  ℕ, ◌≡◌, refl, sym, ◌∙◌, ◌⊎◌, inl, inr, true, none, some, List, ◌∷◌, arith,
}
use chainpoint_core_erc.Exec.{Result, ok, err, Exec, throw, try_catch, handle, continue, ◌>>=◌}
use chainpoint_core_erc.Exec.Keeps.{Preorder, Keeps, keeps_rules}
use chainpoint_core_erc.World.{World, Message, Settlement, ack, nack}
use chainpoint_core_erc.World.Calls.{execute, settle, call}
use chainpoint_core_erc.CachedState.Frame.Functions
use chainpoint_core_erc.CachedState.Frame.{outside}
use chainpoint_core_erc.StateService.{
  send_to_queue, publish, ack_or_nack, aggregation_work, calendar_batch_work,
  anchor_btc_agg_batch_work, btctx_work, btcmon_work, consume_aggregation_message,
  consume_calendar_batch_message, consume_anchor_btc_agg_batch_message, consume_btctx_message,
  consume_btcmon_message, dispatch, process_message,
}
use chainpoint_core_erc.StateService.Loop.{for_each-Keeps}
use chainpoint_core_erc.StateService.Messages.{
  not_json, without_proof_data, parsed, AggMessage, CalMessage, AnchorMessage, BtcTxMessage,
  BtcMonMessage, Content, aggregator, cal_batch, anchor_btc_agg_batch, btctx, btcmon, unknown,
  Delivery,
}

-- The same channel, and nothing settled in between.
abbrev pub Unsettled : World → World → Type 0
Unsettled v w = (w.settled ≡ v.settled) × (w.channel ≡ v.channel)

abbrev pub unsettled : Preorder World
unsettled = record {
  rel = Unsettled;
  rel_refl = λ w. (refl, refl);
  rel_trans = λ u v w p q. (q.0 ∙ p.0, q.1 ∙ p.1);
}

pub Keeps-outside : {A : Type 0} {m : Exec World A} → Keeps outside m → Keeps unsettled m
Keeps-outside k = record { at = λ w. ((k.at w).settled, (k.at w).channel) }

send_to_queue-Keeps : (m : Message) → Keeps unsettled (send_to_queue m)
unfolding send_to_queue execute call throw
send_to_queue-Keeps m = record { at = λ w. ground arith }

publish-Keeps : (m : Message) → Keeps unsettled (publish m)
unfolding publish
publish-Keeps m = search (keeps_rules, send_to_queue-Keeps)

ruleset work_rules = (
  keeps_rules, Keeps-outside, for_each-Keeps, publish-Keeps,
  Functions.get_hash_ids_by_agg_ids-Keeps, Functions.get_hash_ids_by_btctx_id-Keeps,
  Functions.write_agg_state_objects_bulk-Keeps, Functions.write_cal_state_objects_bulk-Keeps,
  Functions.write_anchor_btc_agg_state_objects-Keeps, Functions.write_btctx_state_object-Keeps,
  Functions.write_btchead_state_object-Keeps,
)

pub aggregation_work-Keeps : (m : AggMessage) → Keeps unsettled (aggregation_work m)
unfolding aggregation_work
aggregation_work-Keeps m = search work_rules

pub calendar_batch_work-Keeps : (m : CalMessage) → Keeps unsettled (calendar_batch_work m)
unfolding calendar_batch_work
calendar_batch_work-Keeps m = search work_rules depth 7

pub anchor_btc_agg_batch_work-Keeps :
    (m : AnchorMessage) → Keeps unsettled (anchor_btc_agg_batch_work m)
unfolding anchor_btc_agg_batch_work
anchor_btc_agg_batch_work-Keeps m = search work_rules

pub btctx_work-Keeps : (m : BtcTxMessage) → Keeps unsettled (btctx_work m)
unfolding btctx_work
btctx_work-Keeps m = search work_rules

pub btcmon_work-Keeps : (m : BtcMonMessage) → Keeps unsettled (btcmon_work m)
unfolding btcmon_work
btcmon_work-Keeps m = search work_rules depth 7

-- The settlement of a handler whose work ended so.
abbrev pub settlement : ℕ → Result (Unit {0}) → Settlement
settlement tag (ok _) = ack tag
settlement tag (err e) = nack tag

module _ (tag : ℕ) (w : World) (open_channel : w.channel ≡ true) where
  settle_after :
      (r : Result (Unit {0})) (v : World)
      → Unsettled w v
      → (handle
          (continue r (λ _. settle (ack tag)) v).0
          (λ _. settle (nack tag))
          (continue r (λ _. settle (ack tag)) v).1).1.settled
        ≡ settlement tag r ∷ w.settled
  unfolding settle
  settle_after (ok _) v (s, c) = ground arith
  settle_after (err e) v (s, c) = ground arith

  pub ack_or_nack-settled :
      (work : Exec World (Unit {0}))
      → Keeps unsettled work
      → (ack_or_nack tag work w).1.settled ≡ settlement tag (work w).0 ∷ w.settled
  unfolding ack_or_nack try_catch ◌>>=◌
  ack_or_nack-settled work k = settle_after (work w).0 (work w).1 (k.at w)

-- The message is settled once, by its own tag, and nothing else is settled.
abbrev pub IsSettledOnce : ℕ → World → World → Type 0
IsSettledOnce tag v w = (w.settled ≡ ack tag ∷ v.settled) ⊎ (w.settled ≡ nack tag ∷ v.settled)

-- The handler gets past the parsing of the content.
abbrev pub IsReadable : Content → Type 0
IsReadable (aggregator not_json) = ⊥
IsReadable (aggregator without_proof_data) = ⊥
IsReadable (cal_batch not_json) = ⊥
IsReadable (cal_batch without_proof_data) = ⊥
IsReadable (anchor_btc_agg_batch not_json) = ⊥
IsReadable (anchor_btc_agg_batch without_proof_data) = ⊥
IsReadable (btctx none) = ⊥
IsReadable (btcmon none) = ⊥
IsReadable _ = Unit

once :
    (tag : ℕ) (r : Result (Unit {0})) (v w : World)
    → w.settled ≡ settlement tag r ∷ v.settled
    → IsSettledOnce tag v w
once tag (ok _) v w e = inl e
once tag (err _) v w e = inr e

pub settle_unknown :
    (tag : ℕ) (w : World) → w.channel ≡ true → (settle (ack tag) w).1.settled ≡ ack tag ∷ w.settled
unfolding settle
settle_unknown tag w h = ground arith

module _ (tag : ℕ) (w : World) (open_channel : w.channel ≡ true) where
  pub handler-settles :
      (work : Exec World (Unit {0}))
      → Keeps unsettled work
      → IsSettledOnce tag w (ack_or_nack tag work w).1
  handler-settles work k =
      once tag (work w).0 w (ack_or_nack tag work w).1
        (ack_or_nack-settled tag w open_channel work k)

  dispatch-settles : (c : Content) → IsReadable c → IsSettledOnce tag w (dispatch tag c w).1
  unfolding consume_aggregation_message consume_calendar_batch_message
      consume_anchor_btc_agg_batch_message consume_btctx_message consume_btcmon_message
  dispatch-settles (aggregator (parsed m)) h = handler-settles _ (aggregation_work-Keeps m)
  dispatch-settles (cal_batch (parsed m)) h = handler-settles _ (calendar_batch_work-Keeps m)
  dispatch-settles (anchor_btc_agg_batch (parsed m)) h =
      handler-settles _ (anchor_btc_agg_batch_work-Keeps m)
  dispatch-settles (btctx (some m)) h = handler-settles _ (btctx_work-Keeps m)
  dispatch-settles (btcmon (some m)) h = handler-settles _ (btcmon_work-Keeps m)
  dispatch-settles unknown h = inl (settle_unknown tag w open_channel)
  dispatch-settles (aggregator not_json) h = elim h [ ]
  dispatch-settles (aggregator without_proof_data) h = elim h [ ]
  dispatch-settles (cal_batch not_json) h = elim h [ ]
  dispatch-settles (cal_batch without_proof_data) h = elim h [ ]
  dispatch-settles (anchor_btc_agg_batch not_json) h = elim h [ ]
  dispatch-settles (anchor_btc_agg_batch without_proof_data) h = elim h [ ]
  dispatch-settles (btctx none) h = elim h [ ]
  dispatch-settles (btcmon none) h = elim h [ ]

-- On an open channel, whatever the outcomes of the database, cache and queue calls, a message whose
-- content is readable is acked or nacked exactly once, and no other message is.
pub process_message_settles_once :
    (msg : Delivery) (w : World)
    → w.channel ≡ true
    → IsReadable msg.content
    → IsSettledOnce msg.tag w (process_message (some msg) w).1
unfolding process_message
process_message_settles_once msg w h r = dispatch-settles msg.tag w h msg.content r

settlement-ack :
    (tag : ℕ) (r : Result (Unit {0})) (rest : List Settlement)
    → settlement tag r ∷ rest ≡ ack tag ∷ rest
    → r ≡ ok tt
settlement-ack tag (ok tt) rest h = refl
settlement-ack tag (err e) rest h = absurd (cc h)

-- A handler that acks has done its work, and has added only the settlement to what the work left.
pub ack_or_nack-acked :
    (tag : ℕ) (work : Exec World (Unit {0})) (w : World)
    → w.channel ≡ true
    → Keeps unsettled work
    → (ack_or_nack tag work w).1.settled ≡ ack tag ∷ w.settled
    → ((work w).0 ≡ ok tt)
      × ((ack_or_nack tag work w).1 ≡ record (work w).1 { settled = ack tag ∷ (work w).1.settled })
unfolding ack_or_nack try_catch ◌>>=◌ settle
ack_or_nack-acked tag work w c k h =
    let worked =
      settlement-ack tag (work w).0 w.settled (sym (ack_or_nack-settled tag w c work k) ∙ h) in
    let channel = (k.at w).1 in (worked, rw (worked) (rw (channel, c) refl))
