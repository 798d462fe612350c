-- ===== src/Tests/Links.antt =====
-- The connections of the proof state service at a concrete run: the database answers at the second
-- attempt, RabbitMQ connects, and the connection closes.
use chainpoint_core_erc.Prelude.{refl, true, false, some, [], ◌∷◌, ◌++◌, arith}
use chainpoint_core_erc.Connections.{open_postgres_connection, open_postgres_from}
use chainpoint_core_erc.Connections.Events.{
  System, rmq_connected, Reach, here, next, connection, closing, begin_rmq_connection,
  open_redis_connection, before_connections, start_intervals,
}
use chainpoint_core_erc.Connections.Reconnected.{HoldsOne}
use chainpoint_core_erc.Connections.Timed.{RunsOnce}
use chainpoint_core_erc.StateService.Links.{
  Links, start, open_postgres, open_redis, links_with, sqlz_models, callbacks, on_rmq_init,
  on_rmq_close,
}
use chainpoint_core_erc.Services.{
  Frequencies, proof_state, Started, state_started, channel_of, times_of, callbacks_of, IsWired,
}
use chainpoint_core_erc.Services.Linked.{services-HoldsOne}

abbrev frequencies : Frequencies
frequencies = record { state_minutes = 10; gen_minutes = 10; monitor_seconds = 30 }

-- The start, up to the loop that connects to RabbitMQ.
abbrev begun : System Links
begun =
    begin_rmq_connection
      (open_redis_connection (before_connections (links_with (sqlz_models ++ sqlz_models))))

begun-Started : Started proof_state begun
unfolding start open_postgres open_redis open_postgres_connection open_postgres_from
begun-Started =
    state_started (false ∷ true ∷ [])
      (some (record { port = "6379"; hostname = "redis"; password = "" }, [])) refl

abbrev connected : System Links
connected = rmq_connected (callbacks 10) begun

abbrev disconnected : System Links
disconnected = on_rmq_close (record connected { rmq_open = [] })

disconnected_run : Reach (callbacks_of frequencies proof_state) begun disconnected
unfolding rmq_connected begin_rmq_connection open_redis_connection callbacks on_rmq_init
    start_intervals
disconnected_run = next (next here (connection (omega arith))) (closing [] [] 0 refl)

services-HoldsOne_example :
    HoldsOne (channel_of proof_state) disconnected
    × RunsOnce (times_of frequencies proof_state) disconnected
    × IsWired proof_state disconnected.vars
services-HoldsOne_example = services-HoldsOne frequencies proof_state begun-Started disconnected_run
