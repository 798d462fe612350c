-- ===== src/CachedState/Healthy.antt =====
-- Where no external call fails, the proof state functions return.
use chainpoint_core_erc.Prelude.{ℕ, ◌≡◌, ◌≢◌, refl, true, Option, some, String, List, [], ◌∷◌}
use chainpoint_core_erc.Exec.{Error}
use chainpoint_core_erc.Exec.Succeeds.{IsOk, Succeeds, Succeeds-bind, Succeeds-pure, succeeds_rules}
use chainpoint_core_erc.World.{World, Stamped, Entry, AggRow, AnchorState}
use chainpoint_core_erc.World.Calls.{call, query, execute}
use chainpoint_core_erc.CachedState.Cached.{
  CachedTable, cal_table, anchor_btc_agg_table, btctx_table, btchead_table,
}
use chainpoint_core_erc.CachedState.{
  get_hash_ids_by_agg_ids, get_hash_ids_by_btctx_id, insert_agg_states, write_btchead_state_object,
}
use chainpoint_core_erc.CachedState.Bulk.{insert_statement, cache_new_rows, write_objects}
use chainpoint_core_erc.CachedState.Single.{cache_object, write_object}

-- No call to come fails, and the channel is open.
pub record IsHealthy (w : World) : Type 0 where
  pub no_faults : w.outcomes ≡ []
  pub open_channel : w.channel ≡ true

module _ {A : Type 0} where
  pub Succeeds-call :
      (e : Error) (f : World → A × World)
      → ((w : World) → IsHealthy w → IsHealthy (f w).1)
      → Succeeds IsHealthy (call e f)
  unfolding call
  Succeeds-call e f h = record {
    returns = λ w p. rw (p.no_faults) tt;
    keeps =
        λ w p. rw (p.no_faults) (h _ (record { no_faults = refl; open_channel = p.open_channel }));
  }

  pub Succeeds-query : (e : Error) (f : World → A) → Succeeds IsHealthy (query e f)
  unfolding query
  Succeeds-query e f = Succeeds-call e (λ w. (f w, w)) (λ w p. p)

pub Succeeds-execute :
    (e : Error) (f : World → World)
    → ((w : World) → IsHealthy w → IsHealthy (f w))
    → Succeeds IsHealthy (execute e f)
unfolding execute
Succeeds-execute e f h = Succeeds-call e (λ w. (tt, f w)) h

-- A table whose setters leave a healthy world healthy.
pub record IsCalm {A V : Type 0} (t : CachedTable A V) : Type 0 where
  pub set_rows : (rs : List (Stamped A)) (w : World) → IsHealthy w → IsHealthy (t.set_rows rs w)
  pub set_cache : (es : List (Entry V)) (w : World) → IsHealthy w → IsHealthy (t.set_cache es w)

pub ruleset healthy_rules = (succeeds_rules, Succeeds-query, Succeeds-execute)

module _ {A : Type 0} (t : CachedTable A A) (calm : IsCalm t) where
  pub cache_new_rows-Succeeds : (objs : List A) → Succeeds IsHealthy (cache_new_rows t objs)
  unfolding cache_new_rows
  cache_new_rows-Succeeds objs = search (healthy_rules, calm.set_cache)

  pub insert_statement-Succeeds :
      (objs : List A) → objs ≢ [] → Succeeds IsHealthy (insert_statement t objs)
  insert_statement-Succeeds [] h = absurd (h refl)
  insert_statement-Succeeds (a ∷ objs) h = search (healthy_rules, calm.set_rows)

  pub write_objects-Succeeds :
      (objs : List A) → objs ≢ [] → Succeeds IsHealthy (write_objects t objs)
  unfolding write_objects
  write_objects-Succeeds objs h =
      Succeeds-bind (insert_statement t objs) _ (insert_statement-Succeeds objs h)
        (λ _. search (healthy_rules, cache_new_rows-Succeeds) depth 7)

module _ {A : Type 0} (t : CachedTable A (Option A)) (calm : IsCalm t) where
  pub cache_object-Succeeds :
      (id : String) (o : Option A) → Succeeds IsHealthy (cache_object t id o)
  unfolding cache_object
  cache_object-Succeeds id o = search (healthy_rules, calm.set_cache)

  pub write_object-Succeeds : (obj : A) → Succeeds IsHealthy (write_object t obj)
  unfolding write_object
  write_object-Succeeds obj = search (healthy_rules, cache_object-Succeeds, calm.set_rows) depth 7

pub cal_table-IsCalm : IsCalm cal_table
cal_table-IsCalm = record {
  set_rows = λ rs w p. record { no_faults = p.no_faults; open_channel = p.open_channel };
  set_cache = λ es w p. record { no_faults = p.no_faults; open_channel = p.open_channel };
}

pub anchor_btc_agg_table-IsCalm : IsCalm anchor_btc_agg_table
anchor_btc_agg_table-IsCalm = record {
  set_rows = λ rs w p. record { no_faults = p.no_faults; open_channel = p.open_channel };
  set_cache = λ es w p. record { no_faults = p.no_faults; open_channel = p.open_channel };
}

pub btctx_table-IsCalm : IsCalm btctx_table
btctx_table-IsCalm = record {
  set_rows = λ rs w p. record { no_faults = p.no_faults; open_channel = p.open_channel };
  set_cache = λ es w p. record { no_faults = p.no_faults; open_channel = p.open_channel };
}

pub btchead_table-IsCalm : IsCalm btchead_table
btchead_table-IsCalm = record {
  set_rows = λ rs w p. record { no_faults = p.no_faults; open_channel = p.open_channel };
  set_cache = λ es w p. record { no_faults = p.no_faults; open_channel = p.open_channel };
}

pub insert_agg_states-Succeeds :
    (objs : List AggRow) → objs ≢ [] → Succeeds IsHealthy (insert_agg_states objs)
insert_agg_states-Succeeds [] h = absurd (h refl)
insert_agg_states-Succeeds (a ∷ objs) h =
    Succeeds-execute _ _ (λ w p. record { no_faults = p.no_faults; open_channel = p.open_channel })

pub get_hash_ids_by_agg_ids-Succeeds :
    (ids : List String) → Succeeds IsHealthy (get_hash_ids_by_agg_ids ids)
unfolding get_hash_ids_by_agg_ids
get_hash_ids_by_agg_ids-Succeeds ids = search healthy_rules

pub get_hash_ids_by_btctx_id-Succeeds :
    (id : String) → Succeeds IsHealthy (get_hash_ids_by_btctx_id id)
unfolding get_hash_ids_by_btctx_id
get_hash_ids_by_btctx_id-Succeeds id = search healthy_rules

pub write_btchead-Succeeds :
    (id : String) (height : ℕ) (state : AnchorState)
    → Succeeds IsHealthy (write_btchead_state_object (id, some height, state))
unfolding write_btchead_state_object
write_btchead-Succeeds id height state = write_object-Succeeds btchead_table btchead_table-IsCalm _
