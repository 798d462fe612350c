-- ===== src/ApiServer/Started.antt =====
-- node-api-service/server.js: where the API starts, and which routes it then has.
use chainpoint_core_erc.Prelude.{
  ◌≡◌, refl, Bool, true, false, not, List, [], ◌∷◌, ◌⊎◌, inl, inr, ◌||◌,
}
use chainpoint_core_erc.Exec.{pure, lift, ◌>>=◌}
use chainpoint_core_erc.ApiServer.{
  Handler, get_eth_stats, post_eth_broadcast, post_token_refresh, post_token_credit,
  post_token_audience_update, Route, Environment, apply_middleware, spread, register, limited,
  proofs_route, public_routes, setup_restify_config_and_routes, listening, exited, start,
}

-- The handlers that need a public network.
abbrev pub needs_public : Handler → Bool
needs_public get_eth_stats = true
needs_public post_eth_broadcast = true
needs_public post_token_refresh = true
needs_public post_token_credit = true
needs_public post_token_audience_update = true
needs_public _ = false

-- Whether some route has such a handler.
abbrev pub offers_public : List Route → Bool
offers_public [] = false
offers_public (r ∷ rs) = needs_public r.handler || offers_public rs

abbrev Ends : Environment → Bool → Type 0
Ends env private_mode =
    ((env.development || env.testnet ≡ true)
      × ((routes : List Route) × (start env private_mode ≡ listening routes)
          × (offers_public routes ≡ not private_mode)))
    ⊎ ((env.development || env.testnet ≡ false) × (start env private_mode ≡ exited))

start-Ends :
    (development testnet private_mode : Bool)
    → Ends (record { development = development; testnet = testnet }) private_mode
unfolding start setup_restify_config_and_routes public_routes proofs_route limited register spread
    apply_middleware pure lift ◌>>=◌
start-Ends true t true = inl (refl, (_, refl, refl))
start-Ends true t false = inl (refl, (_, refl, refl))
start-Ends false true true = inl (refl, (_, refl, refl))
start-Ends false true false = inl (refl, (_, refl, refl))
start-Ends false false p = inr (refl, refl)

-- Once its connections are open: on a test network or in development, the API starts to listen, and it
-- offers the endpoints on Ethereum and of tokens exactly where it does not run in private mode;
-- everywhere else the process exits.
pub start_ends :
    (env : Environment) (private_mode : Bool)
    → ((env.development || env.testnet ≡ true)
        × ((routes : List Route) × (start env private_mode ≡ listening routes)
            × (offers_public routes ≡ not private_mode)))
      ⊎ ((env.development || env.testnet ≡ false) × (start env private_mode ≡ exited))
start_ends env private_mode = start-Ends env.development env.testnet private_mode
