-- ===== src/BtcMon/Links.antt =====
-- node-btc-mon-service/server.js: how the service connects, reconnects and starts.
use chainpoint_core_erc.Prelude.{
  ℕ, ◌*◌, Bool, false, Option, none, some, String, List, [], ◌∷◌, if◌then◌else◌,
}
use chainpoint_core_erc.Connections.{RedisUrl}
use chainpoint_core_erc.Connections.Events.{
  Interval, RmqArguments, System, Callbacks, redis_later, rmq_later, open_redis_connection,
  begin_rmq_connection, start_intervals, before_connections, Boot, not_started, exited, running,
}

-- The variables `redis` and `amqpChannel`.
pub record Links : Type 0 where
  pub redis : Option ℕ
  pub amqp_channel : Option ℕ

unfoldable pub on_redis_ready : ℕ → System Links → System Links
on_redis_ready new_redis s = record s { vars = record s.vars { redis = some new_redis } }

unfoldable pub on_redis_error : System Links → System Links
on_redis_error s = redis_later (record s { vars = record s.vars { redis = none } })

unfoldable pub on_rmq_init : ℕ → System Links → System Links
on_rmq_init chan s = record s { vars = record s.vars { amqp_channel = some chan } }

unfoldable pub on_rmq_close : System Links → System Links
on_rmq_close s = rmq_later (record s { vars = record s.vars { amqp_channel = none } })

-- the interval of monitorTransactionsAsync
unfoldable pub service_intervals : ℕ → List Interval
service_intervals monitor_interval_seconds =
    record { ms = monitor_interval_seconds * 1000; immediate = false } ∷ []

-- `setting` is the environment of parse-env.js, by the name of a queue.
unfoldable pub rmq_arguments : (String → String) → ℕ → RmqArguments
rmq_arguments setting prefetch_count = record {
  queues = setting "RMQ_WORK_IN_BTCMON_QUEUE" ∷ setting "RMQ_WORK_OUT_CAL_QUEUE" ∷ [];
  prefetch_count = some prefetch_count;
  consume_queue = some (setting "RMQ_WORK_IN_BTCMON_QUEUE");
}

unfoldable pub callbacks : ℕ → Callbacks Links
callbacks monitor_interval_seconds = record {
  on_ready = on_redis_ready;
  on_error = on_redis_error;
  on_init = on_rmq_init;
  on_close = on_rmq_close;
  on_started = start_intervals (service_intervals monitor_interval_seconds);
}

abbrev pub no_links : Links
no_links = record { redis = none; amqp_channel = none }

-- The Redis connection string, by how `new URL` reads its parts: `none` where one is no URI, for which
-- it throws.
unfoldable pub open_redis : Option (RedisUrl × List RedisUrl) → Boot Links
open_redis none = exited
open_redis (some urls) =
    running (begin_rmq_connection (open_redis_connection (before_connections no_links)))

-- `NODE_ENV` is `test`, and the Redis URIs.
unfoldable pub start : Bool → Option (RedisUrl × List RedisUrl) → Boot Links
start is_test redis_uris = if is_test then not_started else open_redis redis_uris
