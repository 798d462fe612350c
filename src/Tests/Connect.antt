-- ===== src/Tests/Connect.antt =====
-- The connecting loops at concrete inputs.
use chainpoint_core_erc.Prelude.{◌≡◌, refl, some, none, [], ◌∷◌, true}
use chainpoint_core_erc.Connections.{
  RedisUrl, sentinels, host_of, redis_config, no_connection, no_channel, opened, set_up_channel,
  open_standard_rmq_connection,
}

abbrev open_url : RedisUrl
open_url = record { port = "6379"; hostname = "r1"; password = "" }

abbrev closed_url : RedisUrl
closed_url = record { port = "6379"; hostname = "r2"; password = "secret" }

-- The first password that is not empty is the one of all sentinels.
redis_config-sentinels :
    redis_config open_url (closed_url ∷ open_url ∷ [])
    ≡ sentinels (host_of open_url ∷ host_of closed_url ∷ host_of open_url ∷ []) (some "secret")
unfolding redis_config
redis_config-sentinels = refl

-- Attempts that fail ask the broker for nothing, and a service is told of one channel.
open_standard_rmq_connection-opened :
    open_standard_rmq_connection
      ("in" ∷ "out" ∷ [])
      none
      (some "in")
      (no_connection ∷ no_channel ∷ opened ∷ opened ∷ [])
      (record { durable_queues = []; prefetch = none; consumers = []; inits = 0 })
    ≡ (
      true,
      record {
        durable_queues = "in" ∷ "out" ∷ [];
        prefetch = none;
        consumers = "in" ∷ [];
        inits = 1;
      },
    )
unfolding open_standard_rmq_connection set_up_channel
open_standard_rmq_connection-opened = refl
