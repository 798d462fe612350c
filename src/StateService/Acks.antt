-- ===== src/StateService/Acks.antt =====
-- Where no external call fails, every well-formed message is acked.
use chainpoint_core_erc.Prelude.{
  ℕ, ◌<◌, ◌≡◌, ◌≢◌, refl, ap, ◌∙◌, inl, inr, true, none, some, List, [], ◌∷◌, map, arith,
  Option-cases,
}
use chainpoint_core_erc.Prelude.Lists.{All}
use chainpoint_core_erc.Exec.{Result, ok, err, Exec, throw, try_catch, ◌>>=◌}
use chainpoint_core_erc.Exec.Succeeds.{IsOk, Succeeds, Succeeds-bind, Succeeds-pure}
use chainpoint_core_erc.World.{World, Message, ack, nack}
use chainpoint_core_erc.World.Calls.{call, execute, settle}
use chainpoint_core_erc.CachedState.Cached.{
  CachedTable, cal_table, anchor_btc_agg_table, btctx_table,
}
use chainpoint_core_erc.CachedState.Bulk.{write_objects}
use chainpoint_core_erc.CachedState.{
  get_hash_ids_by_agg_ids, get_hash_ids_by_btctx_id, insert_agg_states,
  write_agg_state_objects_bulk, write_cal_state_objects_bulk, write_anchor_btc_agg_state_objects,
  write_btctx_state_object,
}
use chainpoint_core_erc.StateService.{
  for_each, send_to_queue, publish, ack_or_nack, aggregation_work, calendar_batch_work,
  anchor_btc_agg_batch_work, btctx_work, btcmon_work, consume_aggregation_message,
  consume_calendar_batch_message, consume_anchor_btc_agg_batch_message, consume_btctx_message,
  consume_btcmon_message, dispatch, process_message, agg_state_object,
}
use chainpoint_core_erc.CachedState.Healthy.{
  IsHealthy, IsCalm, healthy_rules, write_objects-Succeeds, write_object-Succeeds, cal_table-IsCalm,
  anchor_btc_agg_table-IsCalm, btctx_table-IsCalm, insert_agg_states-Succeeds,
  get_hash_ids_by_agg_ids-Succeeds, get_hash_ids_by_btctx_id-Succeeds, write_btchead-Succeeds,
}
use chainpoint_core_erc.Exec.Keeps.{Keeps}
use chainpoint_core_erc.StateService.Settled.{
  unsettled, settlement, ack_or_nack-settled, aggregation_work-Keeps, calendar_batch_work-Keeps,
  anchor_btc_agg_batch_work-Keeps, btctx_work-Keeps, btcmon_work-Keeps,
}
use chainpoint_core_erc.StateService.Batches.{batches, IsBatch, batches_lem}
use chainpoint_core_erc.StateService.Messages.{
  parsed, not_json, without_proof_data, AggMessage, CalMessage, AnchorMessage, BtcTxMessage,
  BtcMonMessage, Content, aggregator, cal_batch, anchor_btc_agg_batch, btctx, btcmon, unknown,
  Delivery,
}

map-ne-nil : {A B : Type 0} (f : A → B) (xs : List A) → xs ≢ [] → map f xs ≢ []
map-ne-nil f [] h = absurd (h refl)
map-ne-nil f (x ∷ xs) h = λ e. cc

All-Unit : {A : Type 0} (xs : List A) → All (λ _. Unit {0}) xs
All-Unit [] = tt
All-Unit (x ∷ xs) = (tt, All-Unit xs)

for_each-Succeeds :
    {A B : Type 0} (P : A → Type 0) (f : A → Exec World B) (xs : List A)
    → ((a : A) → P a → Succeeds IsHealthy (f a))
    → All P xs
    → Succeeds IsHealthy (for_each f xs)
unfolding for_each
for_each-Succeeds P f [] h all = search healthy_rules
for_each-Succeeds P f (x ∷ xs) h all =
    Succeeds-bind (f x) _ (h x all.0) (λ _. for_each-Succeeds P f xs h all.1)

send_to_queue-Succeeds : (m : Message) → Succeeds IsHealthy (send_to_queue m)
unfolding send_to_queue execute call throw
send_to_queue-Succeeds m = record {
  returns = λ w p. rw (p.open_channel, p.no_faults) tt;
  keeps =
      λ w p. rw (p.open_channel, p.no_faults) (record { no_faults = refl; open_channel = refl });
}

publish-Succeeds : (m : Message) → Succeeds IsHealthy (publish m)
unfolding publish
publish-Succeeds m = search (healthy_rules, send_to_queue-Succeeds)

aggregation_work-Succeeds :
    (m : AggMessage) → m.proof_data ≢ [] → Succeeds IsHealthy (aggregation_work m)
unfolding aggregation_work write_agg_state_objects_bulk
aggregation_work-Succeeds m h =
    Succeeds-bind _ _
      (Succeeds-bind (insert_agg_states _) _
        (insert_agg_states-Succeeds _ (map-ne-nil (agg_state_object m) m.proof_data h))
        (λ _. Succeeds-pure true))
      (λ _. Succeeds-pure tt)

for_each-publish_all : (ms : List Message) → Succeeds IsHealthy (for_each publish ms)
for_each-publish_all ms =
    for_each-Succeeds (λ _. Unit) publish ms (λ m _. publish-Succeeds m) (All-Unit ms)

for_each-write_all :
    {A : Type 0} (t : CachedTable A A) (n : ℕ) (objs : List A)
    → IsCalm t
    → 0 < n
    → Succeeds IsHealthy (for_each (write_objects t) (batches n objs))
for_each-write_all t n objs calm p =
    for_each-Succeeds (IsBatch n) (write_objects t) (batches n objs)
      (λ b h. write_objects-Succeeds t calm b h.0) (batches_lem n objs p).1

calendar_batch_work-Succeeds : (m : CalMessage) → Succeeds IsHealthy (calendar_batch_work m)
unfolding calendar_batch_work write_cal_state_objects_bulk
calendar_batch_work-Succeeds m =
    Succeeds-bind (get_hash_ids_by_agg_ids _) _ (get_hash_ids_by_agg_ids-Succeeds _) (λ ids.
      Succeeds-bind _ _ (for_each-write_all cal_table _ _ cal_table-IsCalm (omega arith))
        (λ _. for_each-publish_all _))

anchor_btc_agg_batch_work-Succeeds :
    (m : AnchorMessage) → Succeeds IsHealthy (anchor_btc_agg_batch_work m)
unfolding anchor_btc_agg_batch_work write_anchor_btc_agg_state_objects
anchor_btc_agg_batch_work-Succeeds m =
    for_each-write_all anchor_btc_agg_table _ _ anchor_btc_agg_table-IsCalm (omega arith)

btctx_work-Succeeds : (m : BtcTxMessage) → Succeeds IsHealthy (btctx_work m)
unfolding btctx_work write_btctx_state_object
btctx_work-Succeeds m = search (healthy_rules, write_object-Succeeds btctx_table btctx_table-IsCalm)

btcmon_work-Succeeds :
    (m : BtcMonMessage) → m.btchead_height ≢ none → Succeeds IsHealthy (btcmon_work m)
unfolding btcmon_work
btcmon_work-Succeeds m h = elim (Option-cases m.btchead_height) [
  | inl e ↦ absurd (h e)
  | inr (n, e) ↦ simp e (
      Succeeds-bind (get_hash_ids_by_btctx_id m.btctx_id) _ (get_hash_ids_by_btctx_id-Succeeds _)
        (λ ids.
          Succeeds-bind _ _ (write_btchead-Succeeds m.btctx_id n m.btchead_state)
            (λ _. for_each-publish_all _)))
]

-- A content that its handler can process: it is readable, an aggregation has at least one item, and
-- a head height is an integer.
abbrev pub IsWellFormed : Content → Type 0
IsWellFormed (aggregator (parsed m)) = m.proof_data ≢ []
IsWellFormed (btcmon (some m)) = m.btchead_height ≢ none
IsWellFormed (aggregator not_json) = ⊥
IsWellFormed (aggregator without_proof_data) = ⊥
IsWellFormed (cal_batch not_json) = ⊥
IsWellFormed (cal_batch without_proof_data) = ⊥
IsWellFormed (anchor_btc_agg_batch not_json) = ⊥
IsWellFormed (anchor_btc_agg_batch without_proof_data) = ⊥
IsWellFormed (btctx none) = ⊥
IsWellFormed (btcmon none) = ⊥
IsWellFormed _ = Unit

ok-ack : (tag : ℕ) (r : Result (Unit {0})) → IsOk r → settlement tag r ≡ ack tag
ok-ack tag (ok _) h = refl
ok-ack tag (err e) h = elim h [ ]

module _ (tag : ℕ) (w : World) (healthy : IsHealthy w) where
  handler-acks :
      (work : Exec World (Unit {0}))
      → Keeps unsettled work
      → Succeeds IsHealthy work
      → (ack_or_nack tag work w).1.settled ≡ ack tag ∷ w.settled
  handler-acks work k s =
      ack_or_nack-settled tag w healthy.open_channel work k
      ∙ ap (λ x. x ∷ w.settled) (ok-ack tag (work w).0 (s.returns w healthy))

  dispatch-acks :
      (c : Content) → IsWellFormed c → (dispatch tag c w).1.settled ≡ ack tag ∷ w.settled
  unfolding consume_aggregation_message consume_calendar_batch_message
      consume_anchor_btc_agg_batch_message consume_btctx_message consume_btcmon_message settle
  dispatch-acks (aggregator (parsed m)) h =
      handler-acks _ (aggregation_work-Keeps m) (aggregation_work-Succeeds m h)
  dispatch-acks (cal_batch (parsed m)) h =
      handler-acks _ (calendar_batch_work-Keeps m) (calendar_batch_work-Succeeds m)
  dispatch-acks (anchor_btc_agg_batch (parsed m)) h =
      handler-acks _ (anchor_btc_agg_batch_work-Keeps m) (anchor_btc_agg_batch_work-Succeeds m)
  dispatch-acks (btctx (some m)) h = handler-acks _ (btctx_work-Keeps m) (btctx_work-Succeeds m)
  dispatch-acks (btcmon (some m)) h =
      handler-acks _ (btcmon_work-Keeps m) (btcmon_work-Succeeds m h)
  dispatch-acks unknown h = rw (healthy.open_channel) refl
  dispatch-acks (aggregator not_json) h = elim h [ ]
  dispatch-acks (aggregator without_proof_data) h = elim h [ ]
  dispatch-acks (cal_batch not_json) h = elim h [ ]
  dispatch-acks (cal_batch without_proof_data) h = elim h [ ]
  dispatch-acks (anchor_btc_agg_batch not_json) h = elim h [ ]
  dispatch-acks (anchor_btc_agg_batch without_proof_data) h = elim h [ ]
  dispatch-acks (btctx none) h = elim h [ ]
  dispatch-acks (btcmon none) h = elim h [ ]

-- Where the channel is open and no external call fails, every well-formed message is acked, and
-- nothing else is settled.
pub process_message_acks :
    (msg : Delivery) (w : World)
    → IsHealthy w
    → IsWellFormed msg.content
    → (process_message (some msg) w).1.settled ≡ ack msg.tag ∷ w.settled
unfolding process_message
process_message_acks msg w h c = dispatch-acks msg.tag w h msg.content c

-- An aggregation with no item can never be stored: whatever the calls do, on an open channel the
-- message is nacked, so that the queue delivers it again, and nothing else changes.
pub consume_aggregation_message_empty :
    (tag : ℕ) (m : AggMessage) (w : World)
    → w.channel ≡ true
    → m.proof_data ≡ []
    → consume_aggregation_message tag (parsed m) w
      ≡ (ok tt, record w { settled = nack tag ∷ w.settled })
unfolding consume_aggregation_message ack_or_nack aggregation_work write_agg_state_objects_bulk
    throw try_catch ◌>>=◌ settle
consume_aggregation_message_empty tag m w c e = simp (e, c)
