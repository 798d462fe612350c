-- ===== src/Pipeline/Keeping.antt =====
-- node-lib/lib/models/cachedProofState.js and Proof.js: the functions that read and write the database keep it
-- consistent, whatever the outcomes of the calls.
use chainpoint_core_erc.Prelude.{◌≡◌, refl, ap, ◌∙◌, true, none, some, String, List, [], ◌∷◌, map}
use chainpoint_core_erc.Prelude.Lists.{All, All-filter_by}
use chainpoint_core_erc.Exec.{ok, err, type_error}
use chainpoint_core_erc.Exec.Keeps.{
  Preorder, Keeps, Keeps-if, Keeps-switch, Keeps-bind, Keeps-pure, Keeps-throw, keeps_rules,
}
use chainpoint_core_erc.World.{
  World, Stamped, AggRow, CalRow, AnchorBtcAggRow, BtcTxRow, Settlement,
}
use chainpoint_core_erc.World.Ops.{Proof}
use chainpoint_core_erc.World.Calls.{settle}
use chainpoint_core_erc.CachedState.Cached.{
  cal_table, anchor_btc_agg_table, btctx_table, btchead_table,
}
use chainpoint_core_erc.CachedState.{
  get_hash_ids_by_agg_ids, get_agg_state_objects_by_hash_ids, get_cal_state_objects_by_agg_ids,
  get_anchor_btc_agg_state_objects_by_cal_ids, get_btctx_state_object_by_anchor_btc_agg_id,
  get_btchead_state_object_by_btctx_id, insert_agg_states, write_agg_state_objects_bulk,
  write_cal_state_objects_bulk, write_anchor_btc_agg_state_objects, write_btctx_state_object,
  BtcHeadInput, write_btchead_state_object, get_hash_ids_by_btctx_id, prune_proof_state_table,
  prune_agg_states, prune_cal_states, prune_anchor_btc_agg_states, prune_btctx_states,
  prune_btchead_states,
}
use chainpoint_core_erc.CachedState.Tables.{destroy_until}
use chainpoint_core_erc.CachedState.Coherence.{
  IsCoherent, get_cal_state_objects_by_agg_ids-Answers, write_cal_state_objects_bulk-IsCoherent,
}
use chainpoint_core_erc.CachedState.Frame.Generic.{
  IsFree, IsInside, Keeps-call, Keeps-execute, frame_rules, get_objects_by_ids-Keeps,
  write_objects-Keeps, get_object_by_id-Keeps, write_object-Keeps,
}
use chainpoint_core_erc.GenService.{has_repeat, write_proofs_bulk, prune_expired_proofs}
use chainpoint_core_erc.Endpoints.Upserted.{upsert_all-IsKeyed}
use chainpoint_core_erc.Pipeline.Distinct.{has_repeat-filter_by}
use chainpoint_core_erc.Pipeline.Consistent.{
  IsConsistent, stamped_id, insert_all-distinct, IsKeyed-filter_by,
}

-- The tables beside that of the calendar states.
beside : Preorder World
beside = record {
  rel = λ v w. (w.agg_states ≡ v.agg_states) × (w.proofs ≡ v.proofs);
  rel_refl = λ w. (refl, refl);
  rel_trans = λ u v w p q. (q.0 ∙ p.0, q.1 ∙ p.1);
}

beside-IsFree : IsFree beside
unfolding beside
beside-IsFree = record { on_call = λ w. (refl, refl) }

cal_table-IsInside : IsInside beside cal_table
unfolding beside
cal_table-IsInside = record { set_rows = λ rs w. (refl, refl); set_cache = λ es w. (refl, refl) }

module _ (content : String → CalRow) where
  abbrev pub consistent : Preorder World
  consistent = record {
    rel = λ v w. IsConsistent content v → IsConsistent content w;
    rel_refl = λ w p. p;
    rel_trans = λ u v w p q r. q (p r);
  }

  -- What changes none of the three tables and the cache.
  pub untouched :
      (v w : World)
      → w.agg_states ≡ v.agg_states
      → w.proofs ≡ v.proofs
      → w.cal_states ≡ v.cal_states
      → w.cal_cache ≡ v.cal_cache
      → IsConsistent content v
      → IsConsistent content w
  untouched v w a q r c p = record {
    distinct = ap (λ rs. has_repeat (map stamped_id rs)) a ∙ p.distinct;
    keyed = rw q p.keyed;
    coherent = record { rows = rw r p.coherent.rows; cache = rw c p.coherent.cache };
  }

  pub consistent-IsFree : IsFree consistent
  consistent-IsFree = record { on_call = λ w p. untouched w _ refl refl refl refl p }

  with_coherent :
      (v w : World)
      → beside.rel v w
      → IsCoherent cal_table content w
      → IsConsistent content v
      → IsConsistent content w
  unfolding beside
  with_coherent v w (a, q) c p = record {
    distinct = ap (λ rs. has_repeat (map stamped_id rs)) a ∙ p.distinct;
    keyed = rw q p.keyed;
    coherent = c;
  }

  pub get_cal-Keeps :
      (ids : List String)
      → ((id : String) → (content id).agg_id ≡ id)
      → Keeps consistent (get_cal_state_objects_by_agg_ids ids)
  unfolding get_cal_state_objects_by_agg_ids
  get_cal-Keeps ids keyed = record {
    at = λ w p.
        with_coherent w _
          ((get_objects_by_ids-Keeps cal_table beside-IsFree cal_table-IsInside ids).at w)
          (get_cal_state_objects_by_agg_ids-Answers content ids w keyed p.coherent).0 p;
  }

  pub write_cal-Keeps :
      (objs : List CalRow)
      → All (λ a. a ≡ content a.agg_id) objs
      → Keeps consistent (write_cal_state_objects_bulk objs)
  unfolding write_cal_state_objects_bulk
  write_cal-Keeps objs h = record {
    at = λ w p.
        with_coherent w _
          ((write_objects-Keeps cal_table beside-IsFree cal_table-IsInside objs).at w)
          (write_cal_state_objects_bulk-IsCoherent content objs w h p.coherent) p;
  }

  anchor_btc_agg_table-IsInside : IsInside consistent anchor_btc_agg_table
  anchor_btc_agg_table-IsInside = record {
    set_rows = λ rs w p. untouched w _ refl refl refl refl p;
    set_cache = λ es w p. untouched w _ refl refl refl refl p;
  }

  btctx_table-IsInside : IsInside consistent btctx_table
  btctx_table-IsInside = record {
    set_rows = λ rs w p. untouched w _ refl refl refl refl p;
    set_cache = λ es w p. untouched w _ refl refl refl refl p;
  }

  btchead_table-IsInside : IsInside consistent btchead_table
  btchead_table-IsInside = record {
    set_rows = λ rs w p. untouched w _ refl refl refl refl p;
    set_cache = λ es w p. untouched w _ refl refl refl refl p;
  }

  pub get_hash_ids-Keeps : (ids : List String) → Keeps consistent (get_hash_ids_by_agg_ids ids)
  unfolding get_hash_ids_by_agg_ids
  get_hash_ids-Keeps ids = search (frame_rules, consistent-IsFree)

  pub get_hash_ids_by_btctx_id-Keeps :
      (id : String) → Keeps consistent (get_hash_ids_by_btctx_id id)
  unfolding get_hash_ids_by_btctx_id
  get_hash_ids_by_btctx_id-Keeps id = search (frame_rules, consistent-IsFree)

  pub get_agg-Keeps : (ids : List String) → Keeps consistent (get_agg_state_objects_by_hash_ids ids)
  unfolding get_agg_state_objects_by_hash_ids
  get_agg-Keeps ids = search (frame_rules, consistent-IsFree)

  pub get_anchor-Keeps :
      (ids : List String) → Keeps consistent (get_anchor_btc_agg_state_objects_by_cal_ids ids)
  unfolding get_anchor_btc_agg_state_objects_by_cal_ids
  get_anchor-Keeps =
      get_objects_by_ids-Keeps anchor_btc_agg_table consistent-IsFree anchor_btc_agg_table-IsInside

  pub get_btctx-Keeps :
      (id : String) → Keeps consistent (get_btctx_state_object_by_anchor_btc_agg_id id)
  unfolding get_btctx_state_object_by_anchor_btc_agg_id
  get_btctx-Keeps = get_object_by_id-Keeps btctx_table consistent-IsFree btctx_table-IsInside

  pub get_btchead-Keeps : (id : String) → Keeps consistent (get_btchead_state_object_by_btctx_id id)
  unfolding get_btchead_state_object_by_btctx_id
  get_btchead-Keeps = get_object_by_id-Keeps btchead_table consistent-IsFree btchead_table-IsInside

  insert_agg-Keeps : (objs : List AggRow) → Keeps consistent (insert_agg_states objs)
  insert_agg-Keeps [] = search keeps_rules
  insert_agg-Keeps (a ∷ as_) = Keeps-execute consistent-IsFree _ _ (λ w p. record {
    distinct = insert_all-distinct w.clock (a ∷ as_) w.agg_states p.distinct;
    keyed = p.keyed;
    coherent = record { rows = p.coherent.rows; cache = p.coherent.cache };
  })

  pub write_agg-Keeps : (objs : List AggRow) → Keeps consistent (write_agg_state_objects_bulk objs)
  unfolding write_agg_state_objects_bulk
  write_agg-Keeps objs = search (keeps_rules, insert_agg-Keeps)

  pub write_anchor-Keeps :
      (objs : List AnchorBtcAggRow) → Keeps consistent (write_anchor_btc_agg_state_objects objs)
  unfolding write_anchor_btc_agg_state_objects
  write_anchor-Keeps =
      write_objects-Keeps anchor_btc_agg_table consistent-IsFree anchor_btc_agg_table-IsInside

  pub write_btctx-Keeps : (obj : BtcTxRow) → Keeps consistent (write_btctx_state_object obj)
  unfolding write_btctx_state_object
  write_btctx-Keeps = write_object-Keeps btctx_table consistent-IsFree btctx_table-IsInside

  pub write_btchead-Keeps : (obj : BtcHeadInput) → Keeps consistent (write_btchead_state_object obj)
  unfolding write_btchead_state_object
  write_btchead-Keeps (id, none, state) = search keeps_rules
  write_btchead-Keeps (id, some height, state) =
      write_object-Keeps btchead_table consistent-IsFree btchead_table-IsInside _

  pub write_proofs_bulk-Keeps : (ps : List Proof) → Keeps consistent (write_proofs_bulk ps)
  unfolding write_proofs_bulk
  write_proofs_bulk-Keeps [] = search keeps_rules
  write_proofs_bulk-Keeps (p ∷ ps) = Keeps-if _ _ _ (Keeps-throw _) (
      Keeps-bind _ _
        (Keeps-execute consistent-IsFree _ _ (λ w c. record {
          distinct = c.distinct;
          keyed = upsert_all-IsKeyed w.clock (p ∷ ps) w.proofs c.keyed;
          coherent = record { rows = c.coherent.rows; cache = c.coherent.cache };
        }))
        (λ _. Keeps-pure true))

  pub settle-Keeps : (s : Settlement) → Keeps consistent (settle s)
  unfolding settle
  settle-Keeps s =
      Keeps-switch (λ w. w.channel) (λ w. (ok tt, record w { settled = s ∷ w.settled }))
        (λ w. (err type_error, w)) (record { at = λ w p. untouched w _ refl refl refl refl p })
        (record { at = λ w p. p })

  pub prune_agg-Keeps : Keeps consistent prune_agg_states
  unfolding prune_agg_states prune_proof_state_table destroy_until
  prune_agg-Keeps = Keeps-call consistent-IsFree _ _ (λ w p. record {
    distinct = has_repeat-filter_by stamped_id _ w.agg_states p.distinct;
    keyed = p.keyed;
    coherent = record { rows = p.coherent.rows; cache = p.coherent.cache };
  })

  pub prune_cal-Keeps : Keeps consistent prune_cal_states
  unfolding prune_cal_states prune_proof_state_table destroy_until
  prune_cal-Keeps = Keeps-call consistent-IsFree _ _ (λ w p. record {
    distinct = p.distinct;
    keyed = p.keyed;
    coherent = record {
      rows =
          All-filter_by (λ (r : Stamped CalRow). r.row ≡ content r.row.agg_id) _ w.cal_states
            p.coherent.rows;
      cache = p.coherent.cache;
    };
  })

  pub prune_anchor-Keeps : Keeps consistent prune_anchor_btc_agg_states
  unfolding prune_anchor_btc_agg_states prune_proof_state_table
  prune_anchor-Keeps = Keeps-call consistent-IsFree _ _ (λ w p. untouched w _ refl refl refl refl p)

  pub prune_btctx-Keeps : Keeps consistent prune_btctx_states
  unfolding prune_btctx_states prune_proof_state_table
  prune_btctx-Keeps = Keeps-call consistent-IsFree _ _ (λ w p. untouched w _ refl refl refl refl p)

  pub prune_btchead-Keeps : Keeps consistent prune_btchead_states
  unfolding prune_btchead_states prune_proof_state_table
  prune_btchead-Keeps =
      Keeps-call consistent-IsFree _ _ (λ w p. untouched w _ refl refl refl refl p)

  pub prune_expired-Keeps : Keeps consistent prune_expired_proofs
  unfolding prune_expired_proofs destroy_until
  prune_expired-Keeps = Keeps-call consistent-IsFree _ _ (λ w p. record {
    distinct = p.distinct;
    keyed = IsKeyed-filter_by _ w.proofs p.keyed;
    coherent = record { rows = p.coherent.rows; cache = p.coherent.cache };
  })
