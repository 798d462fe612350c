-- ===== src/StateService/Complete.antt =====
-- A handler acks only what it has finished: the rows are stored and the 'proof ready' messages sent.
use chainpoint_core_erc.Prelude.{
  ℕ, ◌≡◌, refl, sym, ap, ap₂, subst, ◌∙◌, Bool, true, String, List, [], ◌∷◌, ◌++◌, map,
  append_assoc, append-nil, arith,
}
use chainpoint_core_erc.Prelude.Lists.{All}
use chainpoint_core_erc.Exec.{Result, ok, Exec, pure, throw, try_catch}
use chainpoint_core_erc.Exec.Keeps.{>>=-eq-ok}
use chainpoint_core_erc.World.{World, Message, ack, Stamped, AggRow, CalRow}
use chainpoint_core_erc.World.Calls.{execute, query, call, called}
use chainpoint_core_erc.CachedState.Cached.{cal_table}
use chainpoint_core_erc.CachedState.{get_hash_ids_by_agg_ids, write_cal_state_objects_bulk}
use chainpoint_core_erc.CachedState.Tables.{insert_all, has_key, find_in, find_one}
use chainpoint_core_erc.CachedState.Contents.{or_else, first_of, find_one-insert_all_or}
use chainpoint_core_erc.CachedState.Insert.{insert_all-append, insert_all_present}
use chainpoint_core_erc.CachedState.Laws.{cal_table-IsLawful}
use chainpoint_core_erc.CachedState.Write.{write_objects-rows}
use chainpoint_core_erc.CachedState.Frame.Functions.{write_cal_state_objects_bulk-Keeps}
use chainpoint_core_erc.StateService.{
  for_each, send_to_queue, publish, cal_state_object, cal_state_write_batch_size,
  cal_proof_gen_batch_size, calendar_batch_work, consume_calendar_batch_message,
}
use chainpoint_core_erc.StateService.Settled.{ack_or_nack-acked, calendar_batch_work-Keeps}
use chainpoint_core_erc.StateService.Loop.{for_each-Keeps}
use chainpoint_core_erc.StateService.Batches.{batches, flatten, batches_lem, IsBatch}
use chainpoint_core_erc.StateService.Messages.{parsed, CalMessage, CalItem}

publish_lem :
    (m : Message) (w : World)
    → (publish m w).0 ≡ ok tt
    → (publish m w).1 ≡ record (called w) { sent = w.sent ++ m ∷ [] }
unfolding publish send_to_queue execute call try_catch throw
publish_lem m w h = ground arith

-- What a run of publishing leaves alone, and what it sends.
record Published (v : World) (ms : List Message) (w : World) : Type 0 where
  sent : w.sent ≡ v.sent ++ ms
  cal_states : w.cal_states ≡ v.cal_states

for_each-publish :
    (ms : List Message) (w : World)
    → (for_each publish ms w).0 ≡ ok tt
    → Published w ms (for_each publish ms w).1
unfolding for_each pure
for_each-publish [] w h = record { sent = sym (append-nil w.sent); cal_states = refl }
for_each-publish (m ∷ ms) w h =
    let (u, published, same, rest) = >>=-eq-ok (publish m) _ w h in
    let after = publish_lem m w published in
    let tail = for_each-publish ms (publish m w).1 rest in
    record {
      sent =
          ap (λ (p : Result (Unit {0}) × World). p.1.sent) same
          ∙ tail.sent
          ∙ ap (λ (v : World). v.sent ++ ms) after
          ∙ append_assoc w.sent (m ∷ []) ms;
      cal_states =
          ap (λ (p : Result (Unit {0}) × World). p.1.cal_states) same
          ∙ tail.cal_states
          ∙ ap (λ (v : World). v.cal_states) after;
    }

write_cal-rows :
    (objs : List CalRow) (w : World) {b : Bool}
    → (write_cal_state_objects_bulk objs w).0 ≡ ok b
    → (write_cal_state_objects_bulk objs w).1.cal_states
      ≡ insert_all (λ r. r.agg_id) w.clock objs w.cal_states
unfolding write_cal_state_objects_bulk
write_cal-rows objs w h = write_objects-rows cal_table cal_table-IsLawful objs w h

-- A run of bulk writes stores what one write of all the batches would.
for_each-write :
    (bs : List (List CalRow)) (w : World)
    → (for_each write_cal_state_objects_bulk bs w).0 ≡ ok tt
    → (for_each write_cal_state_objects_bulk bs w).1.cal_states
      ≡ insert_all (λ r. r.agg_id) w.clock (flatten bs) w.cal_states
unfolding for_each pure insert_all
for_each-write [] w h = refl
for_each-write (b ∷ bs) w h =
    let (u, written, same, rest) = >>=-eq-ok (write_cal_state_objects_bulk b) _ w h in
    let frame = (write_cal_state_objects_bulk-Keeps b).at w in
    ap (λ (p : Result (Unit {0}) × World). p.1.cal_states) same
    ∙ for_each-write bs (write_cal_state_objects_bulk b w).1 rest
    ∙ ap₂ (λ c rs. insert_all (λ (r : CalRow). r.agg_id) c (flatten bs) rs) frame.clock
        (write_cal-rows b w written)
    ∙ sym (insert_all-append (λ r. r.agg_id) w.clock b (flatten bs) w.cal_states)

-- The hashes of the aggregations that a calendar message covers, as the table has them.
abbrev pub covered_hash_ids : CalMessage → World → List String
covered_hash_ids m w =
    map (λ r. r.hash_id) (find_in (λ r. r.agg_id) (map (λ i. i.agg_id) m.proof_data) w.agg_states)

-- The row that an item of a message stands for.
abbrev pub row_of_item : CalMessage → CalItem → CalRow
row_of_item m i = record {
  agg_id = i.agg_id;
  cal_id = m.cal_id;
  cal_state = record { ops = i.proof; anchor = m.anchor };
}

-- What a calendar message leads to: the row of every aggregation is the one that was there, or else
-- that of its first item in the message, and every hash is announced once, in order, in messages of
-- at most 2500.
pub record CalendarDone (m : CalMessage) (v w : World) : Type 0 where
  pub bs : List (List String)
  pub announced : flatten bs ≡ covered_hash_ids m v
  pub sized : All (IsBatch cal_proof_gen_batch_size) bs
  pub sent : w.sent ≡ v.sent ++ map Message.cal_batch bs
  pub stored : All (λ i. has_key (λ r. r.agg_id) i.agg_id w.cal_states ≡ true) m.proof_data
  pub rows :
      (k : String)
      → find_one (λ r. r.agg_id) k w.cal_states
        ≡ or_else
            (find_one (λ r. r.agg_id) k v.cal_states)
            (first_of (λ r. r.agg_id) k (map (row_of_item m) m.proof_data))

get_hash_ids_lem :
    (ids : List String) (w : World) {xs : List String}
    → (get_hash_ids_by_agg_ids ids w).0 ≡ ok xs
    → (xs ≡ map (λ r. r.hash_id) (find_in (λ r. r.agg_id) ids w.agg_states))
      × ((get_hash_ids_by_agg_ids ids w).1 ≡ called w)
unfolding get_hash_ids_by_agg_ids query call
get_hash_ids_lem ids w h = ground arith

pub keys-map :
    (m : CalMessage) (items : List CalItem)
    → map (λ r. r.agg_id) (map (cal_state_object m) items) ≡ map (λ i. i.agg_id) items
keys-map m [] = refl
keys-map m (i ∷ items) = ap (λ xs. i.agg_id ∷ xs) (keys-map m items)

pub All-of_map :
    (m : CalMessage) (items : List CalItem) (rs : List (Stamped CalRow))
    → All (λ r. has_key (λ x. x.agg_id) r.agg_id rs ≡ true) (map (cal_state_object m) items)
    → All (λ i. has_key (λ r. r.agg_id) i.agg_id rs ≡ true) items
All-of_map m [] rs h = tt
All-of_map m (i ∷ items) rs h = (h.0, All-of_map m items rs h.1)

write_step : CalMessage → Exec World (Unit {0})
write_step m =
    for_each write_cal_state_objects_bulk
      (batches cal_state_write_batch_size (map (cal_state_object m) m.proof_data))

write_step-rows :
    (m : CalMessage) (w : World)
    → (write_step m w).0 ≡ ok tt
    → (write_step m w).1.cal_states
      ≡ insert_all (λ r. r.agg_id) w.clock (map (cal_state_object m) m.proof_data) w.cal_states
unfolding write_step
write_step-rows m w h =
    let objs = map (cal_state_object m) m.proof_data in
    for_each-write (batches cal_state_write_batch_size objs) w h
    ∙ ap (λ os. insert_all (λ (r : CalRow). r.agg_id) w.clock os w.cal_states)
        (batches_lem cal_state_write_batch_size objs (omega arith)).0

-- After the writes every item of the message has its row, and nothing outside has changed.
write_step-stored :
    (m : CalMessage) (w : World)
    → (write_step m w).0 ≡ ok tt
    → All (λ i. has_key (λ r. r.agg_id) i.agg_id (write_step m w).1.cal_states ≡ true) m.proof_data
write_step-stored m w h =
    let objs = map (cal_state_object m) m.proof_data in
    All-of_map m m.proof_data (write_step m w).1.cal_states (
      subst (λ rs. All (λ r. has_key (λ (x : CalRow). x.agg_id) r.agg_id rs ≡ true) objs)
        (sym (write_step-rows m w h))
        (insert_all_present (λ r. r.agg_id) w.clock objs w.cal_states))

write_step-sent : (m : CalMessage) (w : World) → (write_step m w).1.sent ≡ w.sent
unfolding write_step
write_step-sent m w =
    ((for_each-Keeps write_cal_state_objects_bulk _ write_cal_state_objects_bulk-Keeps).at w).sent

calendar_batch_work-done :
    (m : CalMessage) (w : World)
    → (calendar_batch_work m w).0 ≡ ok tt
    → CalendarDone m w (calendar_batch_work m w).1
unfolding calendar_batch_work write_step
calendar_batch_work-done m w h =
    let keys = map (λ (r : CalRow). r.agg_id) (map (cal_state_object m) m.proof_data) in
    let (ids, read, same, h1) = >>=-eq-ok (get_hash_ids_by_agg_ids keys) _ w h in
    let (ids-eq, w1-eq) = get_hash_ids_lem keys w read in
    let w1 = (get_hash_ids_by_agg_ids keys w).1 in
    let (u, wrote, same2, h2) = >>=-eq-ok (write_step m) _ w1 h1 in
    let w2 = (write_step m w1).1 in
    let published =
      for_each-publish (map Message.cal_batch (batches cal_proof_gen_batch_size ids)) w2 h2 in
    let final = ap (λ (p : Result (Unit {0}) × World). p.1) (same ∙ same2) in
    let (whole, sized) = batches_lem cal_proof_gen_batch_size ids (omega arith) in
    record {
      bs = batches cal_proof_gen_batch_size ids;
      announced =
          whole
          ∙ ids-eq
          ∙ ap
              (λ ks.
                map (λ (r : AggRow). r.hash_id)
                  (find_in (λ (r : AggRow). r.agg_id) ks w.agg_states))
              (keys-map m m.proof_data);
      sized = sized;
      sent =
          ap (λ (v : World). v.sent) final
          ∙ published.sent
          ∙ ap (λ xs. xs ++ map Message.cal_batch (batches cal_proof_gen_batch_size ids))
              (write_step-sent m w1 ∙ ap (λ (v : World). v.sent) w1-eq);
      stored =
          subst
            (λ rs. All (λ i. has_key (λ (r : CalRow). r.agg_id) i.agg_id rs ≡ true) m.proof_data)
            (sym (ap (λ (v : World). v.cal_states) final ∙ published.cal_states))
            (write_step-stored m w1 wrote);
      rows = λ k.
          ap (λ (v : World). find_one (λ (r : CalRow). r.agg_id) k v.cal_states) final
          ∙ ap (find_one (λ (r : CalRow). r.agg_id) k)
              (published.cal_states ∙ write_step-rows m w1 wrote)
          ∙ find_one-insert_all_or (λ (r : CalRow). r.agg_id) w1.clock
              (map (cal_state_object m) m.proof_data) k w1.cal_states
          ∙ ap
              (λ (v : World).
                or_else (find_one (λ (r : CalRow). r.agg_id) k v.cal_states)
                  (first_of (λ (r : CalRow). r.agg_id) k (map (row_of_item m) m.proof_data)))
              w1-eq;
    }

-- On an open channel, whatever the outcomes of the calls: once a calendar message has ended acked,
-- every aggregation of its items has a row in the table; the row of any key is the one that stood
-- there before, or where there was none that of the first item of the key, with the path of the item
-- and the calendar id and the anchor of the message, and no other key has got a row; and the hash ids
-- of its aggregations have been sent, all of them and in order, in nonempty 'proof ready' messages of
-- at most 2500, and nothing else.
pub consume_calendar_batch_message-done :
    (tag : ℕ) (m : CalMessage) (w : World)
    → w.channel ≡ true
    → (consume_calendar_batch_message tag (parsed m) w).1.settled ≡ ack tag ∷ w.settled
    → CalendarDone m w (consume_calendar_batch_message tag (parsed m) w).1
unfolding consume_calendar_batch_message
consume_calendar_batch_message-done tag m w c h =
    let (worked, final) =
      ack_or_nack-acked tag (calendar_batch_work m) w c (calendar_batch_work-Keeps m) h in
    let d = calendar_batch_work-done m w worked in
    subst (CalendarDone m w) (sym final) (record {
      bs = d.bs;
      announced = d.announced;
      sized = d.sized;
      sent = d.sent;
      stored = d.stored;
      rows = d.rows;
    })
