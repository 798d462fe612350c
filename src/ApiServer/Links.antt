-- ===== src/ApiServer/Links.antt =====
-- node-api-service/server.js: how the service connects and reconnects.
use chainpoint_core_erc.Prelude.{ℕ, Bool, Option, none, some, String, List, [], ◌∷◌}
use chainpoint_core_erc.Connections.{open_postgres_connection}
use chainpoint_core_erc.Connections.Events.{
  Model, proof, staked_node, active_token, staked_core, nth, RmqArguments, System, Callbacks,
  redis_later, rmq_later,
}

-- What token-utils.js and hashes.js were given, whether `redisCache` is set, and the models of the four
-- tables that the endpoints read.
pub record Links : Type 0 where
  pub token_redis : Option ℕ
  pub redis_cache : Option ℕ
  pub hashes_channel : Option ℕ
  pub proof_model : Option Model
  pub staked_node_model : Option Model
  pub active_token_model : Option Model
  pub staked_core_model : Option Model

-- the cache of answers keeps the client that it was made with
unfoldable pub on_redis_ready : ℕ → System Links → System Links
on_redis_ready new_redis s = record s {
  vars = record s.vars { token_redis = some new_redis; redis_cache = some new_redis };
}

unfoldable pub on_redis_error : System Links → System Links
on_redis_error s = redis_later (record s { vars = record s.vars { token_redis = none } })

unfoldable pub on_rmq_init : ℕ → System Links → System Links
on_rmq_init chan s = record s { vars = record s.vars { hashes_channel = some chan } }

unfoldable pub on_rmq_close : System Links → System Links
on_rmq_close s = rmq_later (record s { vars = record s.vars { hashes_channel = none } })

-- `setting` is the environment of parse-env.js, by the name of a queue.
unfoldable pub rmq_arguments : (String → String) → RmqArguments
rmq_arguments setting = record {
  queues = setting "RMQ_WORK_OUT_AGG_QUEUE" ∷ [];
  prefetch_count = none;
  consume_queue = none;
}

-- The service has no interval; its start goes on to listen, which no variable here tells of.
unfoldable pub callbacks : Callbacks Links
callbacks = record {
  on_ready = on_redis_ready;
  on_error = on_redis_error;
  on_init = on_rmq_init;
  on_close = on_rmq_close;
  on_started = λ s. s;
}

abbrev pub sqlz_models : List Model
sqlz_models = proof ∷ staked_node ∷ active_token ∷ staked_core ∷ []

-- The database is opened once the first Redis client is ready, whose number is `new_redis`.
unfoldable pub links_with : ℕ → List Model → Links
links_with new_redis models = record {
  token_redis = some new_redis;
  redis_cache = some new_redis;
  hashes_channel = none;
  proof_model = nth 0 models;
  staked_node_model = nth 1 models;
  active_token_model = nth 2 models;
  staked_core_model = nth 3 models;
}

unfoldable pub open_postgres : ℕ → List Bool → Option Links
open_postgres new_redis attempts = elim (open_postgres_connection sqlz_models attempts) [
  | none ↦ none
  | some models ↦ some (links_with new_redis models)
]
