-- ===== src/Pipeline/Run.antt =====
-- node-proof-state-service/server.js and node-proof-gen-service/server.js over one database, one step after another in
-- any order, with any failures.
use chainpoint_core_erc.Prelude.{ℕ, ◌+◌, ◌≡◌, refl, Bool, Option, none, some, String, List, [], ◌∷◌}
use chainpoint_core_erc.Prelude.Lists.{All-filter_by, filter_by}
use chainpoint_core_erc.Exec.Keeps.{Preorder, Keeps, Keeps-throw, keeps_rules}
use chainpoint_core_erc.World.{
  World, Outcome, Entry, AggRow, CalRow, AnchorBtcAggRow, BtcTxRow, BtcHeadRow,
}
use chainpoint_core_erc.World.Ops.{Proof}
use chainpoint_core_erc.CachedState.Cached.{cal_table}
use chainpoint_core_erc.CachedState.Lookup.{IsTrueEntry}
use chainpoint_core_erc.StateService.{process_message, prune_state_data}
use chainpoint_core_erc.StateService.Messages.{Delivery}
use chainpoint_core_erc.GenService.Build.{GenEnv}
use chainpoint_core_erc.GenService.{
  store_proofs, prune_proofs, Ready, ReadyType, cal_batch, btc_batch, eth, unknown, cal_batch_work,
  btc_batch_work, btctx_of, head_of, read_btc_states, store_btc_proofs, consume_by_type,
  consume_parsed, consume_proof_ready_message,
}
use chainpoint_core_erc.Pipeline.Handlers.{
  IsTrueDelivery, process_message-Keeps, prune_state_data-Keeps, handler-Keeps,
}
use chainpoint_core_erc.Pipeline.Consistent.{IsConsistent}
use chainpoint_core_erc.Pipeline.Keeping.{
  consistent, untouched, get_cal-Keeps, get_agg-Keeps, get_anchor-Keeps, get_btctx-Keeps,
  get_btchead-Keeps, write_proofs_bulk-Keeps, settle-Keeps, prune_expired-Keeps,
}

-- What may happen next: a service takes a message or prunes its tables, time passes, the Redis and
-- RabbitMQ connections open or close, the calls to come succeed or fail, or Redis drops entries.
pub data Step (env : GenEnv) (content : String → CalRow) (v : World) : World → Type 0 where
  state_message :
      (msg : Option Delivery)
      → IsTrueDelivery content msg
      → Step env content v (process_message msg v).1
  ready_message : (msg : Ready) → Step env content v (consume_proof_ready_message env msg v).1
  state_pruning : Step env content v (prune_state_data v).1
  proof_pruning : Step env content v (prune_proofs v).1
  passing : (ms : ℕ) → Step env content v (record v { clock = v.clock + ms })
  connecting : (r c : Bool) → Step env content v (record v { redis = r; channel = c })
  failing : (os : List Outcome) → Step env content v (record v { outcomes = os })
  eviction :
      (keep : Entry CalRow → Bool)
      → Step env content v (record v { cal_cache = filter_by keep v.cal_cache })

pub data Reach (env : GenEnv) (content : String → CalRow) (v : World) : World → Type 0 where
  here : Reach env content v v
  next : {u w : World} → Reach env content v u → Step env content u w → Reach env content v w

module _ (env : GenEnv) (content : String → CalRow) where
  abbrev R : Preorder World
  R = consistent content

  store_proofs-Keeps : (ps : List Proof) → Keeps R (store_proofs ps)
  unfolding store_proofs
  store_proofs-Keeps [] = search keeps_rules
  store_proofs-Keeps (p ∷ ps) = search (keeps_rules, write_proofs_bulk-Keeps)

  prune_proofs-Keeps : Keeps R prune_proofs
  unfolding prune_proofs
  prune_proofs-Keeps = search (keeps_rules, prune_expired-Keeps)

  btctx_of-Keeps : (rows : List AnchorBtcAggRow) → Keeps R (btctx_of env rows)
  btctx_of-Keeps [] = search keeps_rules
  btctx_of-Keeps (aa ∷ rows) = get_btctx-Keeps content _

  head_of-Keeps : (tx : Option BtcTxRow) → Keeps R (head_of env tx)
  head_of-Keeps none = search keeps_rules
  head_of-Keeps (some tx) = search (keeps_rules, get_btchead-Keeps)

  read_btc_states-Keeps : (rows : List AnchorBtcAggRow) → Keeps R (read_btc_states env rows)
  unfolding read_btc_states
  read_btc_states-Keeps rows = search (keeps_rules, btctx_of-Keeps, head_of-Keeps) depth 9

  store_btc_proofs-Keeps :
      (agg_rows : List AggRow) (cal_rows : List CalRow) (anchor_rows : List AnchorBtcAggRow)
      (states : Option (BtcTxRow × Option BtcHeadRow))
      → Keeps R (store_btc_proofs env agg_rows cal_rows anchor_rows states)
  store_btc_proofs-Keeps agg_rows cal_rows anchor_rows none = search keeps_rules
  store_btc_proofs-Keeps agg_rows cal_rows anchor_rows (some (tx, none)) = search keeps_rules
  store_btc_proofs-Keeps agg_rows cal_rows anchor_rows (some (tx, some head)) =
      search (keeps_rules, store_proofs-Keeps)

  module _ (keyed : (id : String) → (content id).agg_id ≡ id) where
    cal_batch_work-Keeps : (ids : List String) → Keeps R (cal_batch_work env ids)
    unfolding cal_batch_work
    cal_batch_work-Keeps ids =
        search (keeps_rules, get_agg-Keeps, get_cal-Keeps, store_proofs-Keeps, keyed) depth 9

    btc_batch_work-Keeps : (ids : List String) → Keeps R (btc_batch_work env ids)
    unfolding btc_batch_work
    btc_batch_work-Keeps ids =
        search
          (
            keeps_rules, get_agg-Keeps, get_cal-Keeps, get_anchor-Keeps, read_btc_states-Keeps,
            store_btc_proofs-Keeps, keyed,
          )
          depth 12

    by_type-Keeps :
        (tag : ℕ) (type : ReadyType) (ids : List String)
        → Keeps R (consume_by_type env tag type ids)
    by_type-Keeps tag cal_batch ids = handler-Keeps content tag _ (cal_batch_work-Keeps ids)
    by_type-Keeps tag btc_batch ids = handler-Keeps content tag _ (btc_batch_work-Keeps ids)
    by_type-Keeps tag eth ids = settle-Keeps content _
    by_type-Keeps tag unknown ids = settle-Keeps content _

    parsed-Keeps :
        (tag : ℕ) (type : ReadyType) (ids : Option (List String))
        → Keeps R (consume_parsed env tag type ids)
    parsed-Keeps tag type none = Keeps-throw _
    parsed-Keeps tag type (some ids) = by_type-Keeps tag type ids

    ready_message-Keeps : (msg : Ready) → Keeps R (consume_proof_ready_message env msg)
    unfolding consume_proof_ready_message
    ready_message-Keeps msg = parsed-Keeps msg.tag msg.type msg.hash_ids

    step-IsConsistent :
        {v w : World} → Step env content v w → IsConsistent content v → IsConsistent content w
    step-IsConsistent {v} (state_message msg h) p = (process_message-Keeps content msg h).at v p
    step-IsConsistent {v} (ready_message msg) p = (ready_message-Keeps msg).at v p
    step-IsConsistent {v} state_pruning p = (prune_state_data-Keeps content).at v p
    step-IsConsistent {v} proof_pruning p = prune_proofs-Keeps.at v p
    step-IsConsistent {v} (passing ms) p = untouched content v _ refl refl refl refl p
    step-IsConsistent {v} (connecting r c) p = untouched content v _ refl refl refl refl p
    step-IsConsistent {v} (failing os) p = untouched content v _ refl refl refl refl p
    step-IsConsistent {v} (eviction keep) p = record {
      distinct = p.distinct;
      keyed = p.keyed;
      coherent = record {
        rows = p.coherent.rows;
        cache = All-filter_by (IsTrueEntry cal_table content) keep v.cal_cache p.coherent.cache;
      };
    }

-- If each id has one content with that id, then from a consistent world, after any sequence of steps in
-- any order - messages taken by the state service, whose calendar items are true contents, messages
-- taken by the generator, prunings, connections lost and opened, failing calls, time, evictions -
-- the keys of the aggregation states and of the proofs are distinct, and the calendar states in
-- the cache and in the table are the contents of their keys.
pub Reach-IsConsistent :
    (env : GenEnv) (content : String → CalRow) {v w : World}
    → ((id : String) → (content id).agg_id ≡ id)
    → Reach env content v w
    → IsConsistent content v
    → IsConsistent content w
Reach-IsConsistent env content keyed here p = p
Reach-IsConsistent env content keyed (next r s) p =
    step-IsConsistent env content keyed s (Reach-IsConsistent env content keyed r p)
