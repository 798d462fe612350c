-- ===== src/Pipeline/Calendar.antt =====
-- node-proof-state-service/server.js: where no external call fails, the run of a calendar message.
use chainpoint_core_erc.Prelude.{
  ℕ, ◌≡◌, ◌≢◌, refl, sym, ap, subst, ◌∙◌, Bool, true, false, String, List, [], ◌∷◌, ◌++◌, map,
  arith, append_assoc, append-nil, if◌then◌else◌,
}
use chainpoint_core_erc.Prelude.Lists.{All, All-parts}
use chainpoint_core_erc.Exec.{ok, pure, gets, try_catch}
use chainpoint_core_erc.Exec.Steps.{>>=-ok, try_catch->>=, try_catch-ok}
use chainpoint_core_erc.World.{World, Message, Entry, Stamped, AggRow, CalRow, ack}
use chainpoint_core_erc.World.Calls.{call, query, execute, settle}
use chainpoint_core_erc.CachedState.Cached.{cal_table}
use chainpoint_core_erc.CachedState.Tables.{insert_all, find_in}
use chainpoint_core_erc.CachedState.{get_hash_ids_by_agg_ids, write_cal_state_objects_bulk}
use chainpoint_core_erc.CachedState.Bulk.{cache_new_rows, write_objects}
use chainpoint_core_erc.CachedState.Insert.{insert_all-append}
use chainpoint_core_erc.CachedState.Coherence.{IsCoherent, write_cal_state_objects_bulk-IsCoherent}
use chainpoint_core_erc.StateService.{
  for_each, send_to_queue, publish, ack_or_nack, cal_state_object, cal_state_write_batch_size,
  cal_proof_gen_batch_size, calendar_batch_work, consume_calendar_batch_message,
}
use chainpoint_core_erc.StateService.Batches.{batches, flatten, batches_lem, IsBatch}
use chainpoint_core_erc.StateService.Messages.{parsed, CalMessage}
use chainpoint_core_erc.StateService.Complete.{covered_hash_ids, keys-map}
use chainpoint_core_erc.Pipeline.Reads.{calm}

-- A quiet world with other calendar rows and another cache.
abbrev pub with_cal : World → List (Stamped CalRow) → List (Entry CalRow) → World
with_cal w rs es = record w { outcomes = []; cal_states = rs; cal_cache = es }

abbrev cal_key : CalRow → String
cal_key r = r.agg_id

module _ (w : World) (rs : List (Stamped CalRow)) where
  cached_after :
      (redis : Bool) (objs : List CalRow) (es : List (Entry CalRow))
      → (es' : List (Entry CalRow)) × ((if redis then cache_new_rows cal_table objs else pure tt)
            (with_cal w rs es)
          ≡ (ok tt, with_cal w rs es'))
  unfolding cache_new_rows execute call pure try_catch
  cached_after true objs es = (_, refl)
  cached_after false objs es = (_, refl)

write_cal_healthy :
    (objs : List CalRow) (w : World) (rs : List (Stamped CalRow)) (es : List (Entry CalRow))
    → objs ≢ []
    → (es' : List (Entry CalRow)) × (write_cal_state_objects_bulk objs (with_cal w rs es)
        ≡ (ok true, with_cal w (insert_all cal_key w.clock objs rs) es'))
unfolding write_cal_state_objects_bulk write_objects execute call gets pure
write_cal_healthy [] w rs es h = absurd (h refl)
write_cal_healthy (a ∷ objs) w rs es h =
    let (es', cached) =
      cached_after w (insert_all cal_key w.clock (a ∷ objs) rs) w.redis (a ∷ objs) es in
    (es', >>=-ok _ _ refl ∙ >>=-ok _ _ refl ∙ >>=-ok _ _ cached ∙ refl)

-- Rows that are the contents of their keys.
abbrev pub AreContents : (String → CalRow) → List CalRow → Type 0
AreContents content objs = All (λ a. a ≡ content a.agg_id) objs

module _ (content : String → CalRow) where
  -- The batches of one message, written one after another.
  for_each-write_healthy :
      (bs : List (List CalRow)) (w : World) (rs : List (Stamped CalRow)) (es : List (Entry CalRow))
      → All (IsBatch cal_state_write_batch_size) bs
      → AreContents content (flatten bs)
      → IsCoherent cal_table content (with_cal w rs es)
      → (es' : List (Entry CalRow)) × (for_each write_cal_state_objects_bulk bs (with_cal w rs es)
          ≡ (ok tt, with_cal w (insert_all cal_key w.clock (flatten bs) rs) es'))
        × IsCoherent cal_table content (with_cal w (insert_all cal_key w.clock (flatten bs) rs) es')
  unfolding for_each pure insert_all
  for_each-write_healthy [] w rs es sized h c = (es, refl, c)
  for_each-write_healthy (b ∷ bs) w rs es sized h c =
      let (front, back) = All-parts (λ (a : CalRow). a ≡ content a.agg_id) b (flatten bs) h in
      let (es', written) = write_cal_healthy b w rs es sized.0.0 in
      let coherent =
        subst (λ p. IsCoherent cal_table content p.1) written
          (write_cal_state_objects_bulk-IsCoherent content b (with_cal w rs es) front c) in
      let (es2, rest, last) =
        for_each-write_healthy bs w (insert_all cal_key w.clock b rs) es' sized.1 back coherent in
      let joined = sym (insert_all-append cal_key w.clock b (flatten bs) rs) in
      (
        es2,
        >>=-ok _ _ written ∙ rest ∙ ap (λ t. (ok tt, with_cal w t es2)) joined,
        subst (λ t. IsCoherent cal_table content (with_cal w t es2)) joined last,
      )

publish_healthy :
    (m : Message) (w : World)
    → w.channel ≡ true
    → publish m (calm w) ≡ (ok tt, calm (record w { sent = w.sent ++ m ∷ [] }))
unfolding publish send_to_queue execute call try_catch
publish_healthy m w c = rw c refl

for_each-publish_healthy :
    (ms : List Message) (w : World)
    → w.channel ≡ true
    → for_each publish ms (calm w) ≡ (ok tt, calm (record w { sent = w.sent ++ ms }))
unfolding for_each pure
for_each-publish_healthy [] w c =
    ap (λ ms. (ok tt, calm (record w { sent = ms }))) (sym (append-nil w.sent))
for_each-publish_healthy (m ∷ ms) w c =
    >>=-ok _ _ (publish_healthy m w c)
    ∙ for_each-publish_healthy ms (record w { sent = w.sent ++ m ∷ [] }) c
    ∙ ap (λ l. (ok tt, calm (record w { sent = l }))) (append_assoc w.sent (m ∷ []) ms)

abbrev objs_of : CalMessage → List CalRow
objs_of m = map (cal_state_object m) m.proof_data

-- The world in which a calendar message ends: its rows, the batches it announces, and its ack.
abbrev pub after_calendar : ℕ → CalMessage → World → List (Entry CalRow) → World
after_calendar tag m w es = record w {
  outcomes = [];
  cal_states = insert_all cal_key w.clock (objs_of m) w.cal_states;
  cal_cache = es;
  sent = w.sent ++ map Message.cal_batch (batches cal_proof_gen_batch_size (covered_hash_ids m w));
  settled = ack tag ∷ w.settled;
}

get_hash_ids_healthy :
    (ids : List String) (w : World)
    → w.outcomes ≡ []
    → get_hash_ids_by_agg_ids ids w
      ≡ (ok (map (λ r. r.hash_id) (find_in (λ r. r.agg_id) ids w.agg_states)), calm w)
unfolding get_hash_ids_by_agg_ids query call
get_hash_ids_healthy ids w q = rw q refl

-- All the rows of the message, in batches.
write_all_healthy :
    (content : String → CalRow) (m : CalMessage) (w : World)
    → AreContents content (objs_of m)
    → IsCoherent cal_table content w
    → (es : List (Entry CalRow)) × (for_each write_cal_state_objects_bulk
          (batches cal_state_write_batch_size (objs_of m))
          (calm w)
        ≡ (ok tt, with_cal w (insert_all cal_key w.clock (objs_of m) w.cal_states) es))
      × IsCoherent cal_table content
          (with_cal w (insert_all cal_key w.clock (objs_of m) w.cal_states) es)
write_all_healthy content m w h coherent =
    let bs = batches cal_state_write_batch_size (objs_of m) in
    let (whole, sized) = batches_lem cal_state_write_batch_size (objs_of m) (omega arith) in
    let (es, wrote, after) =
      for_each-write_healthy content bs w w.cal_states w.cal_cache sized
        (subst (AreContents content) (sym whole) h)
        (record { rows = coherent.rows; cache = coherent.cache }) in
    (
      es,
      wrote ∙ ap (λ os. (ok tt, with_cal w (insert_all cal_key w.clock os w.cal_states) es)) whole,
      subst
          (λ os.
            IsCoherent cal_table content
              (with_cal w (insert_all cal_key w.clock os w.cal_states) es))
          whole after,
    )

-- A calendar message of true contents is acked, and cache and table stay coherent.
pub calendar_healthy :
    (content : String → CalRow) (tag : ℕ) (m : CalMessage) (w : World)
    → w.outcomes ≡ []
    → w.channel ≡ true
    → AreContents content (objs_of m)
    → IsCoherent cal_table content w
    → (es : List (Entry CalRow)) × (consume_calendar_batch_message tag (parsed m) w
        ≡ (ok tt, after_calendar tag m w es))
      × IsCoherent cal_table content (after_calendar tag m w es)
unfolding consume_calendar_batch_message ack_or_nack calendar_batch_work settle
calendar_healthy content tag m w q c h coherent =
    let (es, wrote, after) = write_all_healthy content m w h coherent in
    let rows = insert_all cal_key w.clock (objs_of m) w.cal_states in
    let read =
      get_hash_ids_healthy (map cal_key (objs_of m)) w q
      ∙ ap
          (λ ks. (
            ok (
                map (λ (r : AggRow). r.hash_id)
                  (find_in (λ (r : AggRow). r.agg_id) ks w.agg_states)),
            calm w,
          ))
          (keys-map m m.proof_data) in
    let sent =
      for_each-publish_healthy
        (map Message.cal_batch (batches cal_proof_gen_batch_size (covered_hash_ids m w)))
        (with_cal w rows es) c in
    (
      es,
      try_catch->>= _ _ _ (>>=-ok _ _ read ∙ >>=-ok _ _ wrote ∙ sent)
          ∙ try_catch-ok _ _ (rw c refl),
      record { rows = after.rows; cache = after.cache },
    )
