-- ===== src/Pipeline/Whole.antt =====
-- From a calendar message of node-proof-state-service/server.js, over the batches that
-- node-proof-gen-service/server.js takes, to the answer of node-api-service/lib/endpoints/proofs.js.
use chainpoint_core_erc.Prelude.{
  ℕ, ◌≡◌, refl, ap, subst, ◌∙◌, inr, Bool, true, some, String, List, [], ◌∷◌, ◌++◌, map, arith,
  eq_refl,
}
use chainpoint_core_erc.Prelude.Lists.{All, All-map, includes}
use chainpoint_core_erc.Exec.{ok}
use chainpoint_core_erc.World.{World, Message, Entry, AggRow, CalRow, ack}
use chainpoint_core_erc.World.Ops.{Proof}
use chainpoint_core_erc.CachedState.Tables.{has_key, find_one}
use chainpoint_core_erc.CachedState.Insert.{insert_all_present}
use chainpoint_core_erc.CachedState.Lookup.{lookup_by}
use chainpoint_core_erc.StateService.{
  for_each, cal_state_object, cal_proof_gen_batch_size, process_message,
}
use chainpoint_core_erc.StateService.Batches.{batches, batches_lem}
use chainpoint_core_erc.StateService.Complete.{covered_hash_ids, All-of_map}
use chainpoint_core_erc.StateService.Messages.{parsed, CalMessage, CalItem, Content}
use chainpoint_core_erc.GenService.Build.{GenEnv, cal_proof}
use chainpoint_core_erc.GenService.Verify.{Hashing, replay, ProvesCal, cal_proof-ProvesCal}
use chainpoint_core_erc.GenService.{consume_proof_ready_message}
use chainpoint_core_erc.UsageToken.Replies.{sent}
use chainpoint_core_erc.Endpoints.Proofs.{get_proofs_by_ids, final_results}
use chainpoint_core_erc.Endpoints.Upserted.{find_in-returned}
use chainpoint_core_erc.Endpoints.ReadBack.{get_proofs_by_ids-answer, read_rows-quiet}
use chainpoint_core_erc.Pipeline.Consistent.{IsConsistent}
use chainpoint_core_erc.Pipeline.Handlers.{IsTrueMessage}
use chainpoint_core_erc.Pipeline.Run.{Reach, Reach-IsConsistent}
use chainpoint_core_erc.Pipeline.Batch.{proof_of}
use chainpoint_core_erc.Pipeline.Row.{agg_key}
use chainpoint_core_erc.Pipeline.Sequence.{IsLive, stored, deliveries, acked, run_lem}
use chainpoint_core_erc.Pipeline.Calendar.{after_calendar, calendar_healthy}
use chainpoint_core_erc.Pipeline.Covered.{announced-IsCovered, row_announced}

-- The world once the state service has handled the calendar message.
abbrev pub calendar_world : ℕ → CalMessage → World → World
calendar_world tag m w =
    (process_message (some (record { tag = tag; content = Content.cal_batch (parsed m) })) w).1

-- The world once the generator has then handled the batches, delivered in order.
abbrev pub proofs_world : GenEnv → ℕ → CalMessage → List (List String) → World → World
proofs_world env tag m bs w =
    (for_each (consume_proof_ready_message env) (deliveries 1 bs) (calendar_world tag m w)).1

-- What becomes of a row.
pub record IsServed (h : Hashing) (env : GenEnv) (is_uuid : String → Bool) (tag : ℕ)
    (m : CalMessage) (row : AggRow) (cal : CalRow) (value : String) (w : World) : Type 0 where
  pub bs : List (List String)
  pub published : (calendar_world tag m w).sent ≡ w.sent ++ map Message.cal_batch bs
  pub settled : (proofs_world env tag m bs w).settled ≡ acked 1 bs (ack tag ∷ w.settled)
  pub proof : Proof
  pub proves : ProvesCal h env row cal value proof
  pub answered :
      (get_proofs_by_ids is_uuid (row.hash_id ∷ []) (proofs_world env tag m bs w)).0
      ≡ ok (sent (record { hash_id = row.hash_id; proof = some proof } ∷ []))

All-objs :
    (content : String → CalRow) (m : CalMessage) (items : List CalItem)
    → All (λ i. cal_state_object m i ≡ content i.agg_id) items
    → All (λ a. a ≡ content a.agg_id) (map (cal_state_object m) items)
All-objs content m items h = All-map (λ (a : CalRow). a ≡ content a.agg_id) _ items h

module _ (h : Hashing) (env : GenEnv) (content : String → CalRow) (row : AggRow)
    (agg_root value : String) (keyed : (id : String) → (content id).agg_id ≡ id)
    (agg_path : replay h row.agg_state.ops row.hash ≡ agg_root)
    (cal_path : replay h (content row.agg_id).cal_state.ops agg_root ≡ value) where
  proof_of-ProvesCal : ProvesCal h env row (content row.agg_id) value (proof_of env content row)
  unfolding cal_proof
  proof_of-ProvesCal =
      let looked : lookup_by (λ (c : CalRow). c.agg_id) row.agg_id (content row.agg_id ∷ [])
          ≡ some (content row.agg_id) =
        rw (keyed row.agg_id, eq_refl row.agg_id) refl in
      let (proof, built, proves) =
        cal_proof-ProvesCal h env row (content row.agg_id) (content row.agg_id ∷ []) agg_root value
          looked agg_path cal_path in
      let computed : cal_proof env (content row.agg_id ∷ []) row ≡ ok (proof_of env content row) =
        rw looked refl in
      let same : proof ≡ proof_of env content row = cc (built, computed) in
      subst (ProvesCal h env row (content row.agg_id) value) same proves

answer_lem :
    (is_uuid : String → Bool) (id : String) (proof : Proof) (w : World)
    → w.outcomes ≡ []
    → is_uuid id ≡ true
    → stored id w ≡ some proof
    → (get_proofs_by_ids is_uuid (id ∷ []) w).0
      ≡ ok (sent (record { hash_id = id; proof = some proof } ∷ []))
unfolding final_results
answer_lem is_uuid id proof w q u s =
    get_proofs_by_ids-answer is_uuid (id ∷ []) w _
      (record { some_ids = refl; few = refl; valid = rw u refl }) (read_rows-quiet (id ∷ []) w q)
    ∙ ap (λ o. ok (sent (record { hash_id = id; proof = o } ∷ [])))
        (find_in-returned id (id ∷ []) w.proofs (rw (eq_refl id) refl) ∙ s)

module _ (h : Hashing) (env : GenEnv) (is_uuid : String → Bool) (content : String → CalRow)
    (tag : ℕ) (m : CalMessage) (row : AggRow) (agg_root value : String) (w : World) where
  -- The state service has handled the message: the generator starts from a ready world.
  calendar-IsLive :
      w.outcomes ≡ []
      → w.channel ≡ true
      → IsConsistent content w
      → IsTrueMessage content m
      → (es : List (Entry CalRow)) × (calendar_world tag m w ≡ after_calendar tag m w es)
        × IsLive content w.agg_states
            (after_calendar tag m w es).cal_states
            (after_calendar tag m w es)
  unfolding process_message
  calendar-IsLive quiet open_channel start true_message =
      let (es, same, coherent) =
        calendar_healthy content tag m w quiet open_channel
          (All-objs content m m.proof_data true_message) start.coherent in
      (
        es,
        ap (λ p. p.1) same,
        record {
          ready = record {
            quiet = refl;
            open_channel = open_channel;
            agg_states = refl;
            cal_states = refl;
            coherent = coherent;
          };
          keyed = start.keyed;
        },
      )

  -- Let each aggregation have one calendar content with its own id, let the database and its cache
  -- agree with these contents, and let then have happened any steps of the two services, any failures
  -- and lost connections, where every calendar message taken carries these contents. Now let the
  -- channel be open and no further call fail, and let a calendar message arrive that carries the
  -- contents of its aggregations, one of which is that of a row of the table; let the row's path lead
  -- from its hash to an aggregation root, and the path of the content from there to `value`; let the
  -- schema accept the row's proof, and the row's hash id be a UUID. Then the state service acks the
  -- message and publishes batches; the generator, to which they are delivered in order, acks them
  -- all; and the proofs endpoint, asked for the row's hash id, answers with a proof that leads from
  -- the hash to `value`.
  pub calendar_message-IsServed :
      {v : World}
      → ((id : String) → (content id).agg_id ≡ id)
      → IsConsistent content v
      → Reach env content v w
      → w.outcomes ≡ []
      → w.channel ≡ true
      → IsTrueMessage content m
      → find_one agg_key row.hash_id w.agg_states ≡ some row
      → includes row.agg_id (map (λ i. i.agg_id) m.proof_data) ≡ true
      → replay h row.agg_state.ops row.hash ≡ agg_root
      → replay h (content row.agg_id).cal_state.ops agg_root ≡ value
      → env.is_valid_schema (proof_of env content row) ≡ true
      → is_uuid row.hash_id ≡ true
      → IsServed h env is_uuid tag m row (content row.agg_id) value w
  calendar_message-IsServed keyed before reached quiet open_channel true_message found asked
        agg_path cal_path valid uuid =
      let start = Reach-IsConsistent env content keyed reached before in
      let (es, same, live) = calendar-IsLive quiet open_channel start true_message in
      let bs = batches cal_proof_gen_batch_size (covered_hash_ids m w) in
      let (whole, _) = batches_lem cal_proof_gen_batch_size (covered_hash_ids m w) (omega arith) in
      let keys = map (λ (i : CalItem). i.agg_id) m.proof_data in
      let cals = (after_calendar tag m w es).cal_states in
      let there =
        All-map (λ k. has_key (λ (c : CalRow). c.agg_id) k cals ≡ true) _ m.proof_data
          (All-of_map m m.proof_data cals (
            insert_all_present (λ r. r.agg_id) w.clock (map (cal_state_object m) m.proof_data)
              w.cal_states)) in
      let covered = announced-IsCovered keys w.agg_states cals there bs start.distinct whole in
      let ran =
        run_lem env content w.agg_states cals keyed start.distinct row found valid 1 bs
          (after_calendar tag m w es) covered live
          (inr
            (ap (includes row.hash_id) whole ∙ row_announced keys row w.agg_states found asked)) in
      let final : proofs_world env tag m bs w ≡ ran.final =
        ap (λ v. (for_each (consume_proof_ready_message env) (deliveries 1 bs) v).1) same
        ∙ ap (λ p. p.1) ran.same in
      record {
        bs = bs;
        published = ap (λ (v : World). v.sent) same;
        settled = ap (λ (v : World). v.settled) final ∙ ran.settled;
        proof = proof_of env content row;
        proves = proof_of-ProvesCal h env content row agg_root value keyed agg_path cal_path;
        answered =
            ap (λ v. (get_proofs_by_ids is_uuid (row.hash_id ∷ []) v).0) final
            ∙ answer_lem is_uuid row.hash_id (proof_of env content row) ran.final
                ran.live.ready.quiet uuid ran.proof;
      }
