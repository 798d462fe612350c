-- ===== src/Connections/Events.antt =====
-- node-lib/lib/connections.js: the connections of a service while it runs, the events on them, and the timers
-- after which they are opened again.
use chainpoint_core_erc.Prelude.{
  ℕ, zero, suc, ◌+◌, ◌-◌, ◌<◌, ◌≡◌, Bool, true, false, Option, none, some, String, List, [], ◌∷◌,
  ◌++◌, map, if◌then◌else◌,
}

-- The models that the services define (node-lib/lib/models).
pub data Model : Type 0 where
  agg_state cal_state anchor_btc_agg_state btctx_state btchead_state proof : Model
  staked_node active_token staked_core : Model

-- `cxObjects.models[n]`
abbrev pub nth {ℓ} : {A : Type ℓ} → ℕ → List A → Option A
nth n [] = none
nth zero (x ∷ xs) = some x
nth (suc n) (x ∷ xs) = nth n xs

-- An entry of `startIntervals`: its time, and whether it runs at once too.
pub record Interval : Type 0 where
  pub ms : ℕ
  pub immediate : Bool

-- What a service passes of its queues: those to assert, how many messages to prefetch, and the one to
-- consume.
pub record RmqArguments : Type 0 where
  pub queues : List String
  pub prefetch_count : Option ℕ
  pub consume_queue : Option String

-- A service with its own variables `V`. Its Redis clients and its RabbitMQ connections are numbered
-- as they are made. `redis_timers` and `rmq_timers` count the `setTimeout` calls after which a
-- connection is opened again, `rmq_loops` the loops that try to connect. `rmq_open` are the
-- connections that came into use and have not closed; `rmq_unused` are those that a failed attempt
-- has left open, with no handler of the service. The start of the service waits for its first connection.
pub record System (V : Type 0) : Type 0 where
  pub vars : V
  pub redis_clients : ℕ
  pub redis_timers : ℕ
  pub rmq_loops : ℕ
  pub rmq_open : List ℕ
  pub rmq_unused : List ℕ
  pub rmq_made : ℕ
  pub rmq_timers : ℕ
  pub starting : Bool
  pub intervals : List ℕ
  pub immediate_runs : ℕ

-- What a service passes to the functions that open connections, and what follows in its start.
pub record Callbacks (V : Type 0) : Type 0 where
  pub on_ready : ℕ → System V → System V
  pub on_error : System V → System V
  pub on_init : ℕ → System V → System V
  pub on_close : System V → System V
  pub on_started : System V → System V

abbrev pub immediate_count : List Interval → ℕ
immediate_count [] = 0
immediate_count (i ∷ is) = let rest = immediate_count is in if i.immediate then suc rest else rest

module _ {V : Type 0} where
  -- `setTimeout(() => { openRedisConnection(redisURIs) }, 5000)`
  abbrev pub redis_later : System V → System V
  redis_later s = record s { redis_timers = s.redis_timers + 1 }

  -- `setTimeout(() => { openRMQConnectionAsync(connectURI) }, 5000)`
  abbrev pub rmq_later : System V → System V
  rmq_later s = record s { rmq_timers = s.rmq_timers + 1 }

  -- `new Redis(redisConfigObj)`: the client's events come later
  unfoldable pub open_redis_connection : System V → System V
  open_redis_connection s = record s { redis_clients = s.redis_clients + 1 }

  -- the loop begins
  unfoldable pub begin_rmq_connection : System V → System V
  begin_rmq_connection s = record s { rmq_loops = s.rmq_loops + 1 }

  unfoldable pub start_intervals : List Interval → System V → System V
  start_intervals is s = record s {
    intervals = s.intervals ++ map (λ i. i.ms) is;
    immediate_runs = s.immediate_runs + immediate_count is;
  }

  module _ (cb : Callbacks V) where
    -- the loop ends with a new connection, and the start goes on if it has waited for it
    unfoldable pub rmq_connected : System V → System V
    rmq_connected s =
        let opened = cb.on_init s.rmq_made (record s {
          rmq_loops = s.rmq_loops - 1;
          rmq_open = s.rmq_made ∷ s.rmq_open;
          rmq_made = s.rmq_made + 1;
          starting = false;
        }) in
        if s.starting then cb.on_started opened else opened

    -- What may happen to a service: an event of a Redis client or of a connection, a timer, or the end
    -- of an attempt. A connection closes once.
    pub data Step (s : System V) : System V → Type 0 where
      redis_ready : (i : ℕ) → i < s.redis_clients → Step s (cb.on_ready i s)
      redis_error : (i : ℕ) → i < s.redis_clients → Step s (cb.on_error s)
      redis_timeout :
          0 < s.redis_timers
          → Step s (open_redis_connection (record s { redis_timers = s.redis_timers - 1 }))
      connection : 0 < s.rmq_loops → Step s (rmq_connected s)
      -- the attempt fails after it has connected, so the loop goes on
      failed_attempt :
          0 < s.rmq_loops
          → Step s (record s { rmq_unused = s.rmq_made ∷ s.rmq_unused; rmq_made = s.rmq_made + 1 })
      unused_closing :
          (before after : List ℕ) (c : ℕ)
          → s.rmq_unused ≡ before ++ c ∷ after
          → Step s (record s { rmq_unused = before ++ after })
      closing :
          (before after : List ℕ) (c : ℕ)
          → s.rmq_open ≡ before ++ c ∷ after
          → Step s (cb.on_close (record s { rmq_open = before ++ after }))
      rmq_timeout :
          0 < s.rmq_timers
          → Step s (begin_rmq_connection (record s { rmq_timers = s.rmq_timers - 1 }))

    pub data Reach (s : System V) : System V → Type 0 where
      here : Reach s s
      next : {t u : System V} → Reach s t → Step t u → Reach s u

-- A service with its variables, before any connection.
abbrev pub before_connections : {V : Type 0} → V → System V
before_connections vars = record {
  vars = vars;
  redis_clients = 0;
  redis_timers = 0;
  rmq_loops = 0;
  rmq_open = [];
  rmq_unused = [];
  rmq_made = 0;
  rmq_timers = 0;
  starting = true;
  intervals = [];
  immediate_runs = 0;
}

-- How the start of a service stands: it has nothing to do in a test, waits for the database, has ended
-- the process, or has come to the loop that connects to RabbitMQ.
pub data Boot (V : Type 0) : Type 0 where
  not_started waiting exited : Boot V
  running : System V → Boot V
