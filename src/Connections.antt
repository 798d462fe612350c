-- ===== src/Connections.antt =====
-- node-lib/lib/connections.js: the loops that connect a service, each of them tried until it succeeds.
pub mod Opened
pub mod Events
pub mod Reconnected
pub mod Timed
pub mod Kept
use chainpoint_core_erc.Prelude.{
  ℕ, ◌+◌, Bool, true, false, Option, none, some, String, List, [], ◌∷◌, ◌++◌, map, ◌==◌,
  if◌then◌else◌,
}
use chainpoint_core_erc.ParseEnv.Validators.{text, number, str, num}
use chainpoint_core_erc.ParseEnv.{EnvDefinition}

-- How the attempts of a loop go, one after the other: whether the client connects.

-- The loop: `none` while it is still trying. The client is what an attempt gives.
unfoldable pub open_tendermint_connection : {C : Type 0} → List (Option C) → Option C
open_tendermint_connection [] = none
open_tendermint_connection (none ∷ attempts) = open_tendermint_connection attempts
open_tendermint_connection (some client ∷ attempts) = some client

-- the settings of the database
abbrev pub postgres_definitions : List EnvDefinition
postgres_definitions =
    record {
      name = "POSTGRES_CONNECT_PROTOCOL";
      validator = str;
      default = some (text "postgres:");
    }
    ∷ record { name = "POSTGRES_CONNECT_USER"; validator = str; default = some (text "chainpoint") }
    ∷ record { name = "POSTGRES_CONNECT_PW"; validator = str; default = some (text "chainpoint") }
    ∷ record { name = "POSTGRES_CONNECT_HOST"; validator = str; default = some (text "postgres") }
    ∷ record { name = "POSTGRES_CONNECT_PORT"; validator = num; default = some (number 5432) }
    ∷ record { name = "POSTGRES_CONNECT_DB"; validator = str; default = some (text "chainpoint") }
    ∷ []

-- Each attempt defines every model and keeps it, and then synchronises the database, which may fail;
-- `synched_models` are those of the attempts before.
unfoldable pub open_postgres_from : {M : Type 0} → List M → List M → List Bool → Option (List M)
open_postgres_from models synched_models [] = none
open_postgres_from models synched_models (connected ∷ attempts) =
    let rest = open_postgres_from models (synched_models ++ models) attempts in
    if connected then some (synched_models ++ models) else rest

unfoldable pub open_postgres_connection : {M : Type 0} → List M → List Bool → Option (List M)
open_postgres_connection models attempts = open_postgres_from models [] attempts

-- The parts of a URI, by class URL.
pub record RedisUrl : Type 0 where
  pub port : String
  pub hostname : String
  pub password : String

pub record RedisHost : Type 0 where
  pub port : String
  pub host : String

-- `redisConfigObj`
pub data RedisConfig : Type 0 where
  single : RedisHost → String → RedisConfig
  sentinels : List RedisHost → Option String → RedisConfig

abbrev pub host_of : RedisUrl → RedisHost
host_of url = record { port = url.port; host = url.hostname }

-- `if (!password) password = redisURL.password`, over the URIs
abbrev pub first_password : Option String → List RedisUrl → Option String
first_password password [] = password
first_password none (url ∷ urls) = first_password (some url.password) urls
first_password (some p) (url ∷ urls) =
    let kept = first_password (some p) urls in
    let replaced = first_password (some url.password) urls in if p == "" then replaced else kept

-- The parts between the commas: there is at least one.
unfoldable pub redis_config : RedisUrl → List RedisUrl → RedisConfig
redis_config url [] = single (host_of url) url.password
redis_config url (next ∷ urls) =
    sentinels (map host_of (url ∷ next ∷ urls)) (first_password none (url ∷ next ∷ urls))

-- What the broker has been asked for, and what a service was told.
pub record Broker : Type 0 where
  pub durable_queues : List String
  pub prefetch : Option ℕ
  pub consumers : List String
  pub inits : ℕ

-- How far an attempt comes: no connection, a connection without a channel, or all of it.
pub data Attempt : Type 0 where
  no_connection no_channel opened : Attempt

-- What follows once there is a channel.
unfoldable pub set_up_channel : List String → Option ℕ → Option String → Broker → Broker
set_up_channel queues prefetch_count consume_queue b = record {
  durable_queues = b.durable_queues ++ queues;
  prefetch = elim prefetch_count [ none ↦ b.prefetch | some n ↦ some n ];
  consumers = elim consume_queue [ none ↦ b.consumers | some q ↦ q ∷ b.consumers ];
  inits = b.inits + 1;
}

-- the loop, and whether it has ended
unfoldable pub open_standard_rmq_connection :
    List String → Option ℕ → Option String → List Attempt → Broker → Bool × Broker
open_standard_rmq_connection queues prefetch_count consume_queue [] b = (false, b)
open_standard_rmq_connection queues prefetch_count consume_queue (no_connection ∷ attempts) b =
    open_standard_rmq_connection queues prefetch_count consume_queue attempts b
open_standard_rmq_connection queues prefetch_count consume_queue (no_channel ∷ attempts) b =
    open_standard_rmq_connection queues prefetch_count consume_queue attempts b
open_standard_rmq_connection queues prefetch_count consume_queue (opened ∷ attempts) b =
    (true, set_up_channel queues prefetch_count consume_queue b)
