-- ===== src/GenService/Links.antt =====
-- node-proof-gen-service/server.js: how the service connects, reconnects and starts.
use chainpoint_core_erc.Prelude.{
  ℕ, ◌*◌, Bool, false, Option, none, some, String, List, [], ◌∷◌, if◌then◌else◌,
}
use chainpoint_core_erc.Connections.{RedisUrl, open_postgres_connection}
use chainpoint_core_erc.Connections.Events.{
  Model, agg_state, cal_state, anchor_btc_agg_state, btctx_state, btchead_state, proof, nth,
  Interval, RmqArguments, System, Callbacks, redis_later, rmq_later, open_redis_connection,
  begin_rmq_connection, start_intervals, before_connections, Boot, not_started, waiting, exited,
  running,
}

-- The variables `redis` and `amqpChannel`, and what cachedProofState.js and Proof.js
-- were given.
pub record Links : Type 0 where
  pub redis : Option ℕ
  pub proof_state_redis : Option ℕ
  pub amqp_channel : Option ℕ
  pub proof_state_models : List (Option Model)
  pub proof_model : Option Model

unfoldable pub on_redis_ready : ℕ → System Links → System Links
on_redis_ready new_redis s = record s {
  vars = record s.vars { redis = some new_redis; proof_state_redis = some new_redis };
}

unfoldable pub on_redis_error : System Links → System Links
on_redis_error s =
    redis_later (record s { vars = record s.vars { redis = none; proof_state_redis = none } })

unfoldable pub on_rmq_init : ℕ → System Links → System Links
on_rmq_init chan s = record s { vars = record s.vars { amqp_channel = some chan } }

unfoldable pub on_rmq_close : System Links → System Links
on_rmq_close s = rmq_later (record s { vars = record s.vars { amqp_channel = none } })

-- the interval of PruneProofsAsync
unfoldable pub service_intervals : ℕ → List Interval
service_intervals prune_frequency_minutes =
    record { ms = prune_frequency_minutes * 60 * 1000; immediate = false } ∷ []

-- `setting` is the environment of parse-env.js, by the name of a queue.
unfoldable pub rmq_arguments : (String → String) → ℕ → RmqArguments
rmq_arguments setting prefetch_count = record {
  queues = setting "RMQ_WORK_IN_GEN_QUEUE" ∷ [];
  prefetch_count = some prefetch_count;
  consume_queue = some (setting "RMQ_WORK_IN_GEN_QUEUE");
}

unfoldable pub callbacks : ℕ → Callbacks Links
callbacks prune_frequency_minutes = record {
  on_ready = on_redis_ready;
  on_error = on_redis_error;
  on_init = on_rmq_init;
  on_close = on_rmq_close;
  on_started = start_intervals (service_intervals prune_frequency_minutes);
}

-- The variables with the models that the database connection has given.
unfoldable pub links_with : List Model → Links
links_with models = record {
  redis = none;
  proof_state_redis = none;
  amqp_channel = none;
  proof_state_models =
      nth 0 models ∷ nth 1 models ∷ nth 2 models ∷ nth 3 models ∷ nth 4 models ∷ [];
  proof_model = nth 5 models;
}

abbrev pub sqlz_models : List Model
sqlz_models =
    agg_state ∷ cal_state ∷ anchor_btc_agg_state ∷ btctx_state ∷ btchead_state ∷ proof ∷ []

unfoldable pub open_postgres : List Bool → Option Links
open_postgres attempts = elim (open_postgres_connection sqlz_models attempts) [
  | none ↦ none
  | some models ↦ some (links_with models)
]

-- The Redis connection string, by how `new URL` reads its parts: `none` where one is no URI, for which
-- it throws.
unfoldable pub open_redis : Option (RedisUrl × List RedisUrl) → Links → Boot Links
open_redis none vars = exited
open_redis (some urls) vars =
    running (begin_rmq_connection (open_redis_connection (before_connections vars)))

-- `NODE_ENV` is `test`, how the attempts to connect to the database go, and the Redis URIs.
unfoldable pub start : Bool → List Bool → Option (RedisUrl × List RedisUrl) → Boot Links
start is_test attempts redis_uris =
    if is_test
    then not_started
    else elim (open_postgres attempts) [ none ↦ waiting | some vars ↦ open_redis redis_uris vars ]
