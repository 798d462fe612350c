-- ===== src/Tests/State.antt =====
-- The proof state functions and the proof state service.
use chainpoint_core_erc.Prelude.{◌≡◌, refl, some, String, List, [], ◌∷◌, arith}
use chainpoint_core_erc.Prelude.Lists.{All}
use chainpoint_core_erc.Exec.{ok, err, type_error, ◌>>=◌, pure, gets, try_catch}
use chainpoint_core_erc.Exec.Ensures.{OnOk}
use chainpoint_core_erc.World.{Message, ack, nack, refused}
use chainpoint_core_erc.World.Calls.{call, query, execute, settle}
use chainpoint_core_erc.CachedState.Cached.{cal_table}
use chainpoint_core_erc.CachedState.{
  get_cal_state_objects_by_agg_ids, write_cal_state_objects_bulk, get_hash_ids_by_agg_ids,
}
use chainpoint_core_erc.CachedState.Bulk.{write_objects, cache_new_rows}
use chainpoint_core_erc.CachedState.Tables.{find_one, insert_all, insert_new, find_in}
use chainpoint_core_erc.CachedState.Cache.{cache_get, cache_set_nx}
use chainpoint_core_erc.CachedState.Read.{Answers}
use chainpoint_core_erc.CachedState.Coherence.{IsCoherent, get_cal_state_objects_by_agg_ids-Answers}
use chainpoint_core_erc.CachedState.Failures.{
  get_cal_state_objects_by_agg_ids_redis_failure, write_cal_state_objects_bulk_conflict,
}
use chainpoint_core_erc.StateService.{
  consume_calendar_batch_message, consume_aggregation_message, process_message, calendar_batch_work,
  ack_or_nack, for_each, publish, send_to_queue,
}
use chainpoint_core_erc.StateService.Messages.{parsed, aggregator, cal_batch}
use chainpoint_core_erc.StateService.Batches.{batches, flatten, IsBatch, batches_lem}
use chainpoint_core_erc.StateService.Settled.{IsSettledOnce, process_message_settles_once}
use chainpoint_core_erc.StateService.Complete.{CalendarDone, consume_calendar_batch_message-done}
use chainpoint_core_erc.StateService.Acks.{process_message_acks, consume_aggregation_message_empty}
use chainpoint_core_erc.Tests.Data.{
  empty_world, agg_world, cal_world, agg_message, cal_message, cal_row, cal_content,
}

-- A calendar message: the row is stored and cached, and the hash announced.
calendar_batch_runs :
    let w = (consume_calendar_batch_message 5 (parsed cal_message) agg_world).1 in
    (w.settled ≡ ack 5 ∷ []) × (w.sent ≡ Message.cal_batch ("h1" ∷ []) ∷ [])
unfolding consume_calendar_batch_message ack_or_nack calendar_batch_work get_hash_ids_by_agg_ids
    write_cal_state_objects_bulk write_objects cache_new_rows for_each publish send_to_queue batches
    find_in insert_all insert_new cache_set_nx cache_get query execute call settle try_catch gets
    pure ◌>>=◌
calendar_batch_runs = (refl, refl)

process_message_settles_once_example :
    IsSettledOnce 5
      (record agg_world { outcomes = refused ∷ [] })
      (process_message
        (some (record { tag = 5; content = cal_batch (parsed cal_message) }))
        (record agg_world { outcomes = refused ∷ [] })).1
process_message_settles_once_example =
    process_message_settles_once (record { tag = 5; content = cal_batch (parsed cal_message) })
      (record agg_world { outcomes = refused ∷ [] }) refl tt

process_message_acks_example :
    (process_message
      (some (record { tag = 5; content = aggregator (parsed agg_message) }))
      empty_world).1.settled
    ≡ ack 5 ∷ []
process_message_acks_example =
    process_message_acks (record { tag = 5; content = aggregator (parsed agg_message) }) empty_world
      (record { no_faults = refl; open_channel = refl }) (λ e. cc)

consume_calendar_batch_message-done_example :
    CalendarDone cal_message agg_world
      (consume_calendar_batch_message 5 (parsed cal_message) agg_world).1
consume_calendar_batch_message-done_example =
    consume_calendar_batch_message-done 5 cal_message agg_world refl calendar_batch_runs.0

consume_aggregation_message_empty_example :
    consume_aggregation_message 5 (parsed (record agg_message { proof_data = [] })) empty_world
    ≡ (ok tt, record empty_world { settled = nack 5 ∷ [] })
consume_aggregation_message_empty_example =
    consume_aggregation_message_empty 5 (record agg_message { proof_data = [] }) empty_world refl
      refl

get_cal_state_objects_by_agg_ids-Answers_example :
    IsCoherent cal_table cal_content (get_cal_state_objects_by_agg_ids ("g1" ∷ []) cal_world).1
    × OnOk
        (Answers cal_table cal_content cal_world.cal_states ("g1" ∷ []))
        (get_cal_state_objects_by_agg_ids ("g1" ∷ []) cal_world).0
get_cal_state_objects_by_agg_ids-Answers_example =
    get_cal_state_objects_by_agg_ids-Answers cal_content ("g1" ∷ []) cal_world (λ id. refl)
      (record { rows = (refl, tt); cache = tt })

get_cal_state_objects_by_agg_ids_redis_failure_example :
    get_cal_state_objects_by_agg_ids ("g1" ∷ []) (record cal_world { outcomes = refused ∷ [] })
    ≡ (err type_error, cal_world)
get_cal_state_objects_by_agg_ids_redis_failure_example =
    get_cal_state_objects_by_agg_ids_redis_failure "g1" [] refused []
      (record cal_world { outcomes = refused ∷ [] }) refl refl (λ e. cc)

write_cal_state_objects_bulk_conflict_example :
    let w' = (write_cal_state_objects_bulk (record cal_row { cal_id = "c2" } ∷ []) cal_world).1 in
    (find_one (λ r. r.agg_id) "g1" w'.cal_states ≡ some cal_row)
    × (cache_get 1000000 "g1" w'.cal_cache ≡ some (record cal_row { cal_id = "c2" }))
    × ((get_cal_state_objects_by_agg_ids ("g1" ∷ []) w').0
        ≡ ok (record cal_row { cal_id = "c2" } ∷ []))
unfolding find_one cache_get
write_cal_state_objects_bulk_conflict_example =
    write_cal_state_objects_bulk_conflict (record cal_row { cal_id = "c2" }) cal_row cal_world refl
      refl refl refl

abbrev abc : List String
abc = "a" ∷ "b" ∷ "c" ∷ []

batches_lem_example : (flatten (batches 2 abc) ≡ abc) × All (IsBatch 2) (batches 2 abc)
batches_lem_example = batches_lem 2 abc (omega arith)
