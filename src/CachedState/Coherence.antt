-- ===== src/CachedState/Coherence.antt =====
-- The cache and the table agree: what keeps them so, and what does not.
use chainpoint_core_erc.Prelude.{
  ℕ, ◌≡◌, refl, true, String, List, [], ◌∷◌, Bool-cases, Option-cases, inl, inr,
}
use chainpoint_core_erc.Prelude.Lists.{All, All-append, All-filter_by}
use chainpoint_core_erc.Exec.{Error, Result, ok, err, redis_error, db_error}
use chainpoint_core_erc.Exec.Ensures.{
  OnOk, Ensures, Ensures-pure, Ensures-throw, Ensures-gets, Ensures-if, Ensures-try_catch,
  Ensures-bind,
}
use chainpoint_core_erc.World.{
  World, Outcome, done, refused, lost, Stamped, Entry, CalRow, AnchorBtcAggRow,
}
use chainpoint_core_erc.World.Calls.{call, execute, next_outcome, called, respond}
use chainpoint_core_erc.CachedState.Cached.{CachedTable, cal_table, anchor_btc_agg_table}
use chainpoint_core_erc.CachedState.Bulk.{
  set_each_nx, insert_statement, cache_new_rows, write_objects, get_objects_by_ids,
}
use chainpoint_core_erc.CachedState.{
  get_cal_state_objects_by_agg_ids, get_anchor_btc_agg_state_objects_by_cal_ids,
  write_cal_state_objects_bulk,
}
use chainpoint_core_erc.CachedState.Tables.{has_key, insert_new, insert_all}
use chainpoint_core_erc.CachedState.Cache.{cache_get, cache_set, cache_set_nx}
use chainpoint_core_erc.CachedState.Laws.{
  IsLawful, cal_table-IsLawful, anchor_btc_agg_table-IsLawful,
}
use chainpoint_core_erc.CachedState.Lookup.{IsTrueEntry}
use chainpoint_core_erc.CachedState.Read.{IsTrue, Answers, get_objects_by_ids-Ensures}

-- Every row and every cached value of the table is the content of its key.
pub record IsCoherent {A : Type 0} (t : CachedTable A A) (content : String → A) (w : World)
    : Type 0 where
  pub rows : All (λ r. r.row ≡ content (t.key r.row)) (t.rows w)
  pub cache : All (IsTrueEntry t content) (t.cache w)

module _ {A : Type 0} (t : CachedTable A A) (laws : IsLawful t) (content : String → A) where
  abbrev C : World → Type 0
  C = IsCoherent t content

  called-coherent : (w : World) → C w → C (called w)
  called-coherent w p = record {
    rows = rw laws.rows-called p.rows;
    cache = rw laws.cache-called p.cache;
  }

  respond-coherent :
      (o : Outcome) (e : Error) (f : World → World) (w : World)
      → C w
      → C (f w)
      → C (respond o e (λ v. (tt, f v)) w).1
  respond-coherent done e f w p q = q
  respond-coherent refused e f w p q = p
  respond-coherent lost e f w p q = q

  onok-Unit : {B : Type 0} (r : Result B) → OnOk (λ _. Unit) r
  onok-Unit (ok _) = tt
  onok-Unit (err _) = tt

  Ensures-execute :
      (e : Error) (f : World → World)
      → ((w : World) → C w → C (f w))
      → Ensures C (λ _. Unit) (execute e f)
  unfolding execute call
  Ensures-execute e f h = record {
    keeps = λ w p.
        respond-coherent (next_outcome w.outcomes) e f (called w) (called-coherent w p)
          (h _ (called-coherent w p));
    result = λ w p. onok-Unit (respond (next_outcome w.outcomes) e (λ v. (tt, f v)) (called w)).0;
  }

  insert_new-coherent :
      (now : ℕ) (a : A) (rs : List (Stamped A))
      → a ≡ content (t.key a)
      → All (λ r. r.row ≡ content (t.key r.row)) rs
      → All (λ r. r.row ≡ content (t.key r.row)) (insert_new t.key now a rs)
  unfolding insert_new
  insert_new-coherent now a rs ha hr = elim (Bool-cases (has_key t.key (t.key a) rs)) [
    | inl e ↦ rw e hr
    | inr e ↦ rw e (All-append (λ (r : Stamped A). r.row ≡ content (t.key r.row)) rs _ hr (ha, tt))
  ]

  insert_all-coherent :
      (now : ℕ) (objs : List A) (rs : List (Stamped A))
      → All (λ a. a ≡ content (t.key a)) objs
      → All (λ r. r.row ≡ content (t.key r.row)) rs
      → All (λ r. r.row ≡ content (t.key r.row)) (insert_all t.key now objs rs)
  unfolding insert_all
  insert_all-coherent now [] rs ha hr = hr
  insert_all-coherent now (a ∷ objs) rs ha hr =
      insert_all-coherent now objs _ ha.1 (insert_new-coherent now a rs ha.0 hr)

  set_nx-coherent :
      (now n : ℕ) (a : A) (es : List (Entry A))
      → a ≡ content (t.key a)
      → All (IsTrueEntry t content) es
      → All (IsTrueEntry t content) (cache_set_nx now n (t.key a) a es)
  unfolding cache_set_nx cache_set
  set_nx-coherent now n a es ha he = elim (Option-cases (cache_get now (t.key a) es)) [
    | inl e ↦ rw (e, cache_set_nx) (ha, All-filter_by (IsTrueEntry t content) _ es he)
    | inr (v, e) ↦ rw (e, cache_set_nx) he
  ]

  set_each_nx-coherent :
      (now : ℕ) (objs : List A) (es : List (Entry A))
      → All (λ a. a ≡ content (t.key a)) objs
      → All (IsTrueEntry t content) es
      → All (IsTrueEntry t content) (set_each_nx t now objs es)
  set_each_nx-coherent now [] es ha he = he
  set_each_nx-coherent now (a ∷ objs) es ha he =
      set_each_nx-coherent now objs _ ha.1 (set_nx-coherent now _ a es ha.0 he)

  insert_statement-Ensures :
      (objs : List A)
      → All (λ a. a ≡ content (t.key a)) objs
      → Ensures C (λ _. Unit) (insert_statement t objs)
  insert_statement-Ensures [] h = Ensures-throw db_error
  insert_statement-Ensures (a ∷ objs) h = Ensures-execute db_error _ (λ w p. record {
    rows = rw laws.rows-set_rows (insert_all-coherent w.clock (a ∷ objs) (t.rows w) h p.rows);
    cache = rw laws.cache-set_rows p.cache;
  })

  cache_new_rows-Ensures :
      (objs : List A)
      → All (λ a. a ≡ content (t.key a)) objs
      → Ensures C (λ _. Unit) (cache_new_rows t objs)
  unfolding cache_new_rows
  cache_new_rows-Ensures objs h =
      Ensures-try_catch C (λ _. Unit) _ _
        (Ensures-execute redis_error _ (λ w p. record {
          rows = rw laws.rows-set_cache p.rows;
          cache = rw laws.cache-set_cache (set_each_nx-coherent w.clock objs (t.cache w) h p.cache);
        }))
        (λ e. Ensures-pure tt tt)

  write_objects-Ensures :
      (objs : List A)
      → All (λ a. a ≡ content (t.key a)) objs
      → Ensures C (λ _. Unit) (write_objects t objs)
  unfolding write_objects
  write_objects-Ensures objs h =
      Ensures-bind C (λ _. Unit) (λ _. Unit) _ _ (insert_statement-Ensures objs h)
        (λ _ _.
          Ensures-bind C (λ _. Unit) (λ _. Unit) _ _ (Ensures-gets _ (λ w p. tt))
            (λ redis _.
              Ensures-bind C (λ _. Unit) (λ _. Unit) _ _
                (Ensures-if redis _ _ (λ _. cache_new_rows-Ensures objs h)
                  (λ _. Ensures-pure tt tt))
                (λ _ _. Ensures-pure true tt)))

  -- What a read through the cache does from a coherent world.
  pub read-coherent :
      (ids : List String) (w : World)
      → ((id : String) → t.key (content id) ≡ id)
      → C w
      → C (get_objects_by_ids t ids w).1
        × OnOk (Answers t content (t.rows w) ids) (get_objects_by_ids t ids w).0
  read-coherent ids w keyed p =
      let run =
        get_objects_by_ids-Ensures t laws content (t.rows w)
          (record { keyed = keyed; rows = p.rows }) ids in
      let start : IsTrue t content (t.rows w) w = record { rows = refl; cache = p.cache } in
      let after = run.keeps w start in
      (record { rows = rw after.rows p.rows; cache = after.cache }, run.result w start)

-- From a coherent cache and table, whatever the outcomes of the calls: if the read returns, every
-- row of the answer is the content of its key, every id that was asked for and has a row in the
-- table is looked up to that row's content, and cache and table are still coherent.
pub get_cal_state_objects_by_agg_ids-Answers :
    (content : String → CalRow) (ids : List String) (w : World)
    → ((id : String) → (content id).agg_id ≡ id)
    → IsCoherent cal_table content w
    → IsCoherent cal_table content (get_cal_state_objects_by_agg_ids ids w).1
      × OnOk (Answers cal_table content w.cal_states ids) (get_cal_state_objects_by_agg_ids ids w).0
unfolding get_cal_state_objects_by_agg_ids
get_cal_state_objects_by_agg_ids-Answers content ids w keyed p =
    read-coherent cal_table cal_table-IsLawful content ids w keyed p

-- The same for the anchor aggregation states of calendar ids.
pub get_anchor_btc_agg_state_objects_by_cal_ids-Answers :
    (content : String → AnchorBtcAggRow) (ids : List String) (w : World)
    → ((id : String) → (content id).cal_id ≡ id)
    → IsCoherent anchor_btc_agg_table content w
    → IsCoherent anchor_btc_agg_table content (get_anchor_btc_agg_state_objects_by_cal_ids ids w).1
      × OnOk
          (Answers anchor_btc_agg_table content w.anchor_btc_agg_states ids)
          (get_anchor_btc_agg_state_objects_by_cal_ids ids w).0
unfolding get_anchor_btc_agg_state_objects_by_cal_ids
get_anchor_btc_agg_state_objects_by_cal_ids-Answers content ids w keyed p =
    read-coherent anchor_btc_agg_table anchor_btc_agg_table-IsLawful content ids w keyed p

-- Writing objects that are the contents of their keys keeps cache and table coherent, whatever the
-- outcomes of the calls.
pub write_cal_state_objects_bulk-IsCoherent :
    (content : String → CalRow) (objs : List CalRow) (w : World)
    → All (λ a. a ≡ content a.agg_id) objs
    → IsCoherent cal_table content w
    → IsCoherent cal_table content (write_cal_state_objects_bulk objs w).1
unfolding write_cal_state_objects_bulk
write_cal_state_objects_bulk-IsCoherent content objs w h p =
    (write_objects-Ensures cal_table cal_table-IsLawful content objs h).keeps w p
