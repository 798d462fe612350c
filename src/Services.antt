-- ===== src/Services.antt =====
-- The services that keep connections, by what they pass to node-lib/lib/connections.js: the server.js of
-- node-proof-state-service, node-proof-gen-service, node-btc-mon-service, node-btc-tx-service and
-- node-api-service.
pub mod Laws
pub mod Linked
use chainpoint_core_erc.Prelude.{
  ◌⊎◌, ℕ, ◌*◌, ◌≡◌, ◌⊎◌, Bool, true, false, Option, none, some, String, List, [], ◌∷◌,
}
use chainpoint_core_erc.Connections.{RedisUrl}
use chainpoint_core_erc.Connections.Events.{
  Model, agg_state, cal_state, anchor_btc_agg_state, btctx_state, btchead_state, proof, staked_node,
  active_token, staked_core, RmqArguments, System, Callbacks, Boot, running, before_connections,
  open_redis_connection, begin_rmq_connection,
}
use chainpoint_core_erc.StateService.Links as StateLinks
use chainpoint_core_erc.GenService.Links as GenLinks
use chainpoint_core_erc.BtcMon.Links as MonLinks
use chainpoint_core_erc.BtcTx.Links as TxLinks
use chainpoint_core_erc.ApiServer.Links as ApiLinks

pub data Service : Type 0 where
  proof_state proof_gen btc_mon btc_tx api : Service

-- PRUNE_FREQUENCY_MINUTES of the two services with a database, and MONITOR_INTERVAL_SECONDS.
pub record Frequencies : Type 0 where
  pub state_minutes : ℕ
  pub gen_minutes : ℕ
  pub monitor_seconds : ℕ

abbrev pub Vars : Service → Type 0
Vars proof_state = StateLinks.Links
Vars proof_gen = GenLinks.Links
Vars btc_mon = MonLinks.Links
Vars btc_tx = TxLinks.Links
Vars api = ApiLinks.Links

abbrev pub callbacks_of : Frequencies → (k : Service) → Callbacks (Vars k)
callbacks_of f proof_state = StateLinks.callbacks f.state_minutes
callbacks_of f proof_gen = GenLinks.callbacks f.gen_minutes
callbacks_of f btc_mon = MonLinks.callbacks f.monitor_seconds
callbacks_of f btc_tx = TxLinks.callbacks
callbacks_of f api = ApiLinks.callbacks

-- The variable in which a service keeps the channel.
abbrev pub channel_of : (k : Service) → Vars k → Option ℕ
channel_of proof_state v = v.amqp_channel
channel_of proof_gen v = v.amqp_channel
channel_of btc_mon v = v.amqp_channel
channel_of btc_tx v = v.amqp_channel
channel_of api v = v.hashes_channel

-- What it passes of its queues, with the settings and its number of messages to prefetch.
abbrev pub rmq_arguments_of : (String → String) → ℕ → Service → RmqArguments
rmq_arguments_of setting n proof_state = StateLinks.rmq_arguments setting n
rmq_arguments_of setting n proof_gen = GenLinks.rmq_arguments setting n
rmq_arguments_of setting n btc_mon = MonLinks.rmq_arguments setting n
rmq_arguments_of setting n btc_tx = TxLinks.rmq_arguments setting n
rmq_arguments_of setting n api = ApiLinks.rmq_arguments setting

-- The times of its intervals, in milliseconds.
abbrev pub times_of : Frequencies → Service → List ℕ
times_of f proof_state = f.state_minutes * 60 * 1000 ∷ []
times_of f proof_gen = f.gen_minutes * 60 * 1000 ∷ []
times_of f btc_mon = f.monitor_seconds * 1000 ∷ []
times_of f btc_tx = []
times_of f api = []

-- The start has come as far as RabbitMQ, after any attempts to connect to the database. The API has by
-- then waited for a Redis client.
pub data Started : (k : Service) → System (Vars k) → Type 0 where
  state_started :
      (attempts : List Bool) (uris : Option (RedisUrl × List RedisUrl))
      {s : System StateLinks.Links}
      → StateLinks.start false attempts uris ≡ running s
      → Started proof_state s
  gen_started :
      (attempts : List Bool) (uris : Option (RedisUrl × List RedisUrl)) {s : System GenLinks.Links}
      → GenLinks.start false attempts uris ≡ running s
      → Started proof_gen s
  mon_started :
      (uris : Option (RedisUrl × List RedisUrl)) {s : System MonLinks.Links}
      → MonLinks.start false uris ≡ running s
      → Started btc_mon s
  tx_started : {s : System TxLinks.Links} → TxLinks.start false ≡ running s → Started btc_tx s
  api_started :
      (attempts : List Bool) (links : ApiLinks.Links)
      → ApiLinks.open_postgres 0 attempts ≡ some links
      → Started api (begin_rmq_connection (open_redis_connection (before_connections links)))

-- What a service has handed to the modules that it uses: the same Redis client as it holds itself, and
-- each module its own model. The API holds a client only in the cache of its answers, which it keeps
-- when the client fails.
abbrev pub IsWired : (k : Service) → Vars k → Type 0
IsWired proof_state v =
    (v.proof_state_redis ≡ v.redis)
    × (v.proof_state_models
        ≡ some agg_state
          ∷ some cal_state
          ∷ some anchor_btc_agg_state
          ∷ some btctx_state
          ∷ some btchead_state
          ∷ [])
IsWired proof_gen v =
    (v.proof_state_redis ≡ v.redis)
    × (v.proof_state_models
        ≡ some agg_state
          ∷ some cal_state
          ∷ some anchor_btc_agg_state
          ∷ some btctx_state
          ∷ some btchead_state
          ∷ [])
    × (v.proof_model ≡ some proof)
IsWired btc_mon v = Unit
IsWired btc_tx v = Unit
IsWired api v =
    ((v.token_redis ≡ none) ⊎ (v.token_redis ≡ v.redis_cache))
    × (v.proof_model ≡ some proof)
    × (v.staked_node_model ≡ some staked_node)
    × (v.active_token_model ≡ some active_token)
    × (v.staked_core_model ≡ some staked_core)
