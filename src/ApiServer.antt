-- ===== src/ApiServer.antt =====
-- node-api-service/server.js: the routes of the API, and its start.
pub mod Links
pub mod Started
use chainpoint_core_erc.Prelude.{
  ℕ, Bool, true, false, not, String, List, [], ◌∷◌, ◌++◌, ◌||◌, if◌then◌else◌,
}
use chainpoint_core_erc.Exec.{Result, ok, err, type_error, Exec, pure, lift, try_catch, ◌>>=◌, ◌>>◌}

-- `throttle(burst, rate)`, the rate in hundredths, and the cache of answers in Redis.
pub data Middleware : Type 0 where
  throttle : ℕ → ℕ → Middleware
  redis_cache : Middleware

-- What `applyMiddleware` is given and gives: an array, or a function by itself.
pub data Middlewares : Type 0 where
  array : List Middleware → Middlewares
  function : Middleware → Middlewares

pub data Handler : Type 0 where
  post_hash_v1 get_cal_tx get_cal_tx_data get_proofs_by_ids get_nodes get_peers get_core_status :
      Handler
  get_eth_stats post_eth_broadcast post_token_refresh post_token_credit : Handler
  post_token_audience_update get_v1 : Handler

pub data Method : Type 0 where
  get post : Method

pub record Route : Type 0 where
  pub method : Method
  pub path : String
  pub middlewares : List Middleware
  pub handler : Handler

-- NODE_ENV is `development`, and NETWORK is `testnet`.
pub record Environment : Type 0 where
  pub development : Bool
  pub testnet : Bool

unfoldable pub apply_middleware : Environment → Middlewares → Middlewares
apply_middleware env middlewares = if env.development || env.testnet then array [] else middlewares

-- `...xs`: a function is not iterable
unfoldable pub spread : Middlewares → Result (List Middleware)
spread (array middlewares) = ok middlewares
spread (function middleware) = err type_error

-- `server.get` or `server.post`
unfoldable pub register : Route → Exec (List Route) (Unit {0})
register route routes = (ok tt, routes ++ route ∷ [])

module _ (env : Environment) where
  -- A route behind `...applyMiddleware(xs)`, and after it `others`.
  unfoldable pub limited :
      Method → String → Middlewares → List Middleware → Handler → Exec (List Route) (Unit {0})
  limited method path middlewares others handler = do
    applied ← lift (spread (apply_middleware env middlewares))
    register (record {
      method = method;
      path = path;
      middlewares = applied ++ others;
      handler = handler;
    })

  unfoldable pub proofs_route : Bool → Exec (List Route) (Unit {0})
  proofs_route has_redis_cache =
      if has_redis_cache
      then limited get "/proofs" (function (throttle 50 1000)) (redis_cache ∷ []) get_proofs_by_ids
      else limited get "/proofs" (array (throttle 50 1000 ∷ [])) [] get_proofs_by_ids

  -- the endpoints on Ethereum and of tokens
  unfoldable pub public_routes : Exec (List Route) (Unit {0})
  public_routes = do
    limited get "/eth/:addr/stats" (array (throttle 5 100 ∷ [])) [] get_eth_stats
    limited post "/eth/broadcast" (array (throttle 5 100 ∷ [])) [] post_eth_broadcast
    register (record {
      method = post;
      path = "/usagetoken/refresh";
      middlewares = [];
      handler = post_token_refresh;
    })
    register (record {
      method = post;
      path = "/usagetoken/credit";
      middlewares = [];
      handler = post_token_credit;
    })
    register (record {
      method = post;
      path = "/usagetoken/audience";
      middlewares = [];
      handler = post_token_audience_update;
    })

  unfoldable pub setup_restify_config_and_routes : Bool → Bool → Exec (List Route) (Unit {0})
  setup_restify_config_and_routes has_redis_cache private_mode = do
    limited post "/hashes" (array (throttle 5 2 ∷ [])) [] post_hash_v1
    limited get "/calendar/:txid" (array (throttle 50 1000 ∷ [])) [] get_cal_tx
    limited get "/calendar/:txid/data" (array (throttle 50 1000 ∷ [])) [] get_cal_tx_data
    proofs_route has_redis_cache
    limited get "/nodes/random" (array (throttle 15 300 ∷ [])) [] get_nodes
    limited get "/peers" (array (throttle 15 300 ∷ [])) [] get_peers
    limited get "/status" (array (throttle 15 300 ∷ [])) [] get_core_status
    if private_mode then pure tt else public_routes
    register (record { method = get; path = "/"; middlewares = []; handler = get_v1 })

-- How a start ends: the server listens, or the process exits.
pub data Start : Type 0 where
  listening : List Route → Start
  exited : Start

abbrev pub started : Result (Unit {0}) × List Route → Start
started (ok u, routes) = listening routes
started (err e, routes) = exited

-- Each connection has been opened, and that of Redis has set the cache.
unfoldable pub start : Environment → Bool → Start
start env private_mode = started (setup_restify_config_and_routes env true private_mode [])
