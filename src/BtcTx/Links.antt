-- ===== src/BtcTx/Links.antt =====
-- node-btc-tx-service/server.js: how the service connects, reconnects and starts.
use chainpoint_core_erc.Prelude.{ℕ, Bool, Option, none, some, String, [], ◌∷◌, if◌then◌else◌}
use chainpoint_core_erc.Connections.Events.{
  RmqArguments, System, Callbacks, rmq_later, begin_rmq_connection, before_connections, Boot,
  not_started, running,
}

-- The variable `amqpChannel`.
pub record Links : Type 0 where
  pub amqp_channel : Option ℕ

unfoldable pub on_rmq_init : ℕ → System Links → System Links
on_rmq_init chan s = record s { vars = record s.vars { amqp_channel = some chan } }

unfoldable pub on_rmq_close : System Links → System Links
on_rmq_close s = rmq_later (record s { vars = record s.vars { amqp_channel = none } })

-- `setting` is the environment of parse-env.js, by the name of a queue.
unfoldable pub rmq_arguments : (String → String) → ℕ → RmqArguments
rmq_arguments setting prefetch_count = record {
  queues = setting "RMQ_WORK_IN_BTCTX_QUEUE" ∷ setting "RMQ_WORK_OUT_CAL_QUEUE" ∷ [];
  prefetch_count = some prefetch_count;
  consume_queue = some (setting "RMQ_WORK_IN_BTCTX_QUEUE");
}

-- The service has no Redis connection and no interval.
unfoldable pub callbacks : Callbacks Links
callbacks = record {
  on_ready = λ i s. s;
  on_error = λ s. s;
  on_init = on_rmq_init;
  on_close = on_rmq_close;
  on_started = λ s. s;
}

abbrev pub no_links : Links
no_links = record { amqp_channel = none }

-- `NODE_ENV` is `test`
unfoldable pub start : Bool → Boot Links
start is_test =
    if is_test then not_started else running (begin_rmq_connection (before_connections no_links))
