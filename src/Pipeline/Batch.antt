-- ===== src/Pipeline/Batch.antt =====
-- node-proof-gen-service/server.js: where no external call fails, a calendar batch stores the proof of each
-- of its rows.
use chainpoint_core_erc.Prelude.{
  ℕ, ◌≡◌, refl, ap, subst, ◌∙◌, true, false, some, String, List, [], ◌∷◌, map,
}
use chainpoint_core_erc.Prelude.Lists.{All, filter_by, includes}
use chainpoint_core_erc.Exec.{ok, pure, lift, try_catch, ◌>>=◌}
use chainpoint_core_erc.Exec.Steps.{>>=-ok, try_catch->>=, try_catch-ok}
use chainpoint_core_erc.Exec.Ensures.{OnOk}
use chainpoint_core_erc.World.{World, Stamped, AggRow, CalRow, Entry, Settlement, ack}
use chainpoint_core_erc.World.Ops.{Proof}
use chainpoint_core_erc.World.Calls.{call, execute, settle}
use chainpoint_core_erc.CachedState.Tables.{has_key, find_in}
use chainpoint_core_erc.CachedState.Cached.{cal_table}
use chainpoint_core_erc.CachedState.Lookup.{lookup_by}
use chainpoint_core_erc.CachedState.Read.{Answers}
use chainpoint_core_erc.CachedState.Coherence.{IsCoherent, get_cal_state_objects_by_agg_ids-Answers}
use chainpoint_core_erc.StateService.{ack_or_nack}
use chainpoint_core_erc.GenService.Build.{
  GenEnv, empty_proof, add_chainpoint_header, add_calendar_branch, cal_proof, map_result,
}
use chainpoint_core_erc.GenService.{
  upsert_all, has_repeat, write_proofs_bulk, store_proofs, cal_batch_work,
}
use chainpoint_core_erc.Endpoints.ReadBack.{includes_self}
use chainpoint_core_erc.Pipeline.Reads.{reread, calm, CalRead, get_agg_healthy, get_cal_healthy}
use chainpoint_core_erc.Pipeline.Distinct.{has_repeat-filter_by, map-compose}

-- The rows of a batch, as the database gives them.
abbrev pub batch_rows : List String → List (Stamped AggRow) → List AggRow
batch_rows ids aggs = find_in (λ r. r.hash_id) ids aggs

-- Every row has the calendar row of its aggregation.
abbrev pub IsCovered : List (Stamped CalRow) → List AggRow → Type 0
IsCovered cals rows = All (λ r. has_key (λ (c : CalRow). c.agg_id) r.agg_id cals ≡ true) rows

looked_up :
    (content : String → CalRow) (cals : List (Stamped CalRow)) (ids : List String)
    (as_ : List CalRow) (rows : List AggRow)
    → Answers cal_table content cals ids as_
    → All (λ x. includes x ids ≡ true) (map (λ r. r.agg_id) rows)
    → IsCovered cals rows
    → All (λ r. lookup_by (λ (c : CalRow). c.agg_id) r.agg_id as_ ≡ some (content r.agg_id)) rows
looked_up content cals ids as_ [] h asked there = tt
looked_up content cals ids as_ (r ∷ rows) h asked there =
    (h.found r.agg_id asked.0 there.0, looked_up content cals ids as_ rows h asked.1 there.1)

module _ (env : GenEnv) (content : String → CalRow) where
  -- The proof of a row, with the true content of its aggregation.
  abbrev pub proof_of : AggRow → Proof
  proof_of row =
      add_calendar_branch env (add_chainpoint_header env empty_proof row.hash row.hash_id)
        row.agg_state (content row.agg_id).cal_state

  abbrev pub valid_proofs : List AggRow → List Proof
  valid_proofs rows = filter_by env.is_valid_schema (map proof_of rows)

  map_result-proofs :
      (as_ : List CalRow) (rows : List AggRow)
      → All (λ r. lookup_by (λ (c : CalRow). c.agg_id) r.agg_id as_ ≡ some (content r.agg_id)) rows
      → map_result (cal_proof env as_) rows ≡ ok (map proof_of rows)
  unfolding map_result cal_proof
  map_result-proofs as_ [] h = refl
  map_result-proofs as_ (r ∷ rows) h = rw (h.0, map_result-proofs as_ rows h.1) refl

  valid_proofs-distinct :
      (rows : List AggRow)
      → has_repeat (map (λ r. r.hash_id) rows) ≡ false
      → has_repeat (map (λ p. p.hash_id_core) (valid_proofs rows)) ≡ false
  unfolding add_calendar_branch add_chainpoint_header
  valid_proofs-distinct rows h =
      has_repeat-filter_by (λ (p : Proof). p.hash_id_core) env.is_valid_schema (map proof_of rows)
        (ap has_repeat (map-compose proof_of (λ (p : Proof). p.hash_id_core) rows) ∙ h)

store_proofs_healthy :
    (ps : List Proof) (w : World)
    → w.outcomes ≡ []
    → has_repeat (map (λ p. p.hash_id_core) ps) ≡ false
    → store_proofs ps w
      ≡ (ok tt, record w { outcomes = []; proofs = upsert_all w.clock ps w.proofs })
unfolding store_proofs write_proofs_bulk execute call pure try_catch ◌>>=◌ upsert_all
store_proofs_healthy [] w q h = ap (λ os. (ok tt, record w { outcomes = os })) q
store_proofs_healthy (p ∷ ps) w q h = rw (h, q) refl

-- A quiet world of the generator, whose proof state is that of the tables `aggs` and `cals`.
pub record IsReady (content : String → CalRow) (aggs : List (Stamped AggRow))
    (cals : List (Stamped CalRow)) (w : World) : Type 0 where
  pub quiet : w.outcomes ≡ []
  pub open_channel : w.channel ≡ true
  pub agg_states : w.agg_states ≡ aggs
  pub cal_states : w.cal_states ≡ cals
  pub coherent : IsCoherent cal_table content w

-- The world after a batch: proofs written, the message acked, and the cache read into.
abbrev pub after_batch : World → List (Entry CalRow) → List Proof → List Settlement → World
after_batch w es ps done_with = record w {
  outcomes = [];
  cal_cache = es;
  proofs = upsert_all w.clock ps w.proofs;
  settled = done_with;
}

module _ (env : GenEnv) (content : String → CalRow) (aggs : List (Stamped AggRow))
    (cals : List (Stamped CalRow)) (keyed : (id : String) → (content id).agg_id ≡ id)
    (distinct : has_repeat (map (λ r. r.row.hash_id) aggs) ≡ false) (ids : List String)
    (covered : IsCovered cals (batch_rows ids aggs)) where
  abbrev agg_rows : List AggRow
  agg_rows = batch_rows ids aggs

  -- What the read of the calendar rows gives.
  read_rows :
      (w : World)
      → IsReady content aggs cals w
      → (read : CalRead (map (λ r. r.agg_id) agg_rows) (calm w)) × (map_result
            (cal_proof env read.rows)
            agg_rows
          ≡ ok (map (proof_of env content) agg_rows))
        × IsCoherent cal_table content (reread w read.cache)
  read_rows w r =
      let asked = map (λ (a : AggRow). a.agg_id) agg_rows in
      let read = get_cal_healthy asked (calm w) refl in
      let calm_coherent : IsCoherent cal_table content (calm w) = record {
        rows = r.coherent.rows;
        cache = r.coherent.cache;
      } in
      let (after, answered) =
        get_cal_state_objects_by_agg_ids-Answers content asked (calm w) keyed calm_coherent in
      (
        read,
        map_result-proofs env content read.rows agg_rows (
            looked_up content cals asked read.rows agg_rows
              (subst (λ rs. Answers cal_table content rs asked read.rows) r.cal_states
                (subst (λ p. OnOk (Answers cal_table content w.cal_states asked) p.0) read.same
                  answered))
              (includes_self asked) covered),
        subst (λ p. IsCoherent cal_table content p.1) read.same after,
      )

  rows-distinct : has_repeat (map (λ r. r.hash_id) agg_rows) ≡ false
  unfolding find_in
  rows-distinct =
      ap has_repeat (
        map-compose (λ (s : Stamped AggRow). s.row) (λ (r : AggRow). r.hash_id)
          (filter_by (λ r. includes r.row.hash_id ids) aggs))
      ∙ has_repeat-filter_by (λ (s : Stamped AggRow). s.row.hash_id)
          (λ r. includes r.row.hash_id ids) aggs distinct

  work_lem :
      (w : World)
      → IsReady content aggs cals w
      → (es : List (Entry CalRow)) × (cal_batch_work env ids w
          ≡ (ok tt, after_batch w es (valid_proofs env content agg_rows) w.settled))
        × IsCoherent cal_table content (reread w es)
  unfolding cal_batch_work lift
  work_lem w r =
      let (read, built, coherent) = read_rows w r in
      (
        read.cache,
        >>=-ok _ _ (
              get_agg_healthy ids w r.quiet
              ∙ ap (λ rs. (ok (batch_rows ids rs), calm w)) r.agg_states)
            ∙ >>=-ok _ _ read.same
            ∙ >>=-ok (lift (map_result (cal_proof env read.rows) agg_rows)) _
                (ap (λ x. (x, reread w read.cache)) built)
            ∙ store_proofs_healthy _ (reread w read.cache) refl
                (valid_proofs-distinct env content agg_rows rows-distinct),
        coherent,
      )

  -- A batch stores the valid proofs of its rows, is acked, and leaves the world ready.
  pub batch_lem :
      (tag : ℕ) (w : World)
      → IsReady content aggs cals w
      → (es : List (Entry CalRow)) × (ack_or_nack tag (cal_batch_work env ids) w
          ≡ (ok tt, after_batch w es (valid_proofs env content agg_rows) (ack tag ∷ w.settled)))
        × IsReady content aggs cals
            (after_batch w es (valid_proofs env content agg_rows) (ack tag ∷ w.settled))
  unfolding ack_or_nack settle
  batch_lem tag w r =
      let (es, worked, coherent) = work_lem w r in
      (
        es,
        try_catch->>= _ _ _ worked ∙ try_catch-ok _ _ (rw (r.open_channel) refl),
        record {
          quiet = refl;
          open_channel = r.open_channel;
          agg_states = r.agg_states;
          cal_states = r.cal_states;
          coherent = record { rows = coherent.rows; cache = coherent.cache };
        },
      )
