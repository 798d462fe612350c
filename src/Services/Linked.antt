-- ===== src/Services/Linked.antt =====
-- node-lib/lib/connections.js with the server.js of each service: what holds whatever happens to the connections.
use chainpoint_core_erc.Prelude.{
  ℕ, ◌≡◌, refl, sym, ap, subst, ◌∙◌, inl, inr, Bool, Option, none, some, List, ◌++◌,
}
use chainpoint_core_erc.Connections.{RedisUrl, open_postgres_connection}
use chainpoint_core_erc.Connections.Events.{
  Model, System, Boot, running, exited, waiting, before_connections, open_redis_connection,
  begin_rmq_connection, Reach,
}
use chainpoint_core_erc.Connections.Reconnected.{HoldsOne, Reach-HoldsOne}
use chainpoint_core_erc.Connections.Timed.{RunsOnce, Reach-RunsOnce}
use chainpoint_core_erc.Connections.Kept.{Reach-KeepsVars, open_postgres_connection-front}
use chainpoint_core_erc.StateService.Links as StateLinks
use chainpoint_core_erc.GenService.Links as GenLinks
use chainpoint_core_erc.BtcMon.Links as MonLinks
use chainpoint_core_erc.BtcTx.Links as TxLinks
use chainpoint_core_erc.ApiServer.Links as ApiLinks
use chainpoint_core_erc.Services.{
  Service, proof_state, proof_gen, btc_mon, btc_tx, api, Frequencies, Vars, callbacks_of,
  channel_of, times_of, Started, state_started, gen_started, mon_started, tx_started, api_started,
  IsWired,
}
use chainpoint_core_erc.Services.Laws.{
  callbacks-IsReconnecting, callbacks-IsTimed, callbacks-KeepsVars,
}

-- What holds when the start has come to RabbitMQ: the service holds no channel, and is wired.
abbrev IsFresh : (k : Service) → Vars k → Type 0
IsFresh k v = IsWired k v × (channel_of k v ≡ none)

module _ {L : Type 0} (P : L → Type 0) (links : List Model → L) (models : List Model) where
  abbrev with_models : Option (List Model) → Option L
  with_models none = none
  with_models (some ms) = some (links ms)

  opened_links :
      (attempts : List Bool) (o : Option (List Model)) (vars : L)
      → open_postgres_connection models attempts ≡ o
      → with_models o ≡ some vars
      → ((rest : List Model) → P (links (models ++ rest)))
      → P vars
  opened_links attempts none vars e h front = absurd (cc h)
  opened_links attempts (some ms) vars e h front =
      let (rest, same) = open_postgres_connection-front models attempts ms e in
      let links_eq : links (models ++ rest) ≡ vars = ap links (sym same) ∙ cc h in
      subst P links_eq (front rest)

state_links :
    (attempts : List Bool) (vars : StateLinks.Links)
    → StateLinks.open_postgres attempts ≡ some vars
    → IsFresh proof_state vars
unfolding StateLinks.open_postgres StateLinks.links_with
state_links attempts vars h =
    opened_links (IsFresh proof_state) StateLinks.links_with StateLinks.sqlz_models attempts _ vars
      refl h (λ rest. ((refl, refl), refl))

gen_links :
    (attempts : List Bool) (vars : GenLinks.Links)
    → GenLinks.open_postgres attempts ≡ some vars
    → IsFresh proof_gen vars
unfolding GenLinks.open_postgres GenLinks.links_with
gen_links attempts vars h =
    opened_links (IsFresh proof_gen) GenLinks.links_with GenLinks.sqlz_models attempts _ vars refl h
      (λ rest. ((refl, refl, refl), refl))

api_links :
    (attempts : List Bool) (vars : ApiLinks.Links)
    → ApiLinks.open_postgres 0 attempts ≡ some vars
    → IsFresh api vars
unfolding ApiLinks.open_postgres ApiLinks.links_with
api_links attempts vars h =
    opened_links (IsFresh api) (ApiLinks.links_with 0) ApiLinks.sqlz_models attempts _ vars refl h
      (λ rest. ((inr refl, refl, refl, refl, refl), refl))

module _ {L : Type 0} where
  abbrev boot : Option L → Option (RedisUrl × List RedisUrl) → Boot L
  boot none uris = waiting
  boot (some vars) none = exited
  boot (some vars) (some urls) =
      running (begin_rmq_connection (open_redis_connection (before_connections vars)))

  -- A start that runs has opened the database.
  booted :
      (o : Option L) (uris : Option (RedisUrl × List RedisUrl)) (s : System L)
      → boot o uris ≡ running s
      → (vars : L) × (o ≡ some vars)
        × (begin_rmq_connection (open_redis_connection (before_connections vars)) ≡ s)
  booted none uris s h = absurd (cc h)
  booted (some vars) none s h = absurd (cc h)
  booted (some vars) (some urls) s h = (vars, refl, cc h)

state_start-boot :
    (o : Option StateLinks.Links) (uris : Option (RedisUrl × List RedisUrl))
    → elim o [ none ↦ waiting | some vars ↦ StateLinks.open_redis uris vars ] ≡ boot o uris
unfolding StateLinks.open_redis
state_start-boot none uris = refl
state_start-boot (some vars) none = refl
state_start-boot (some vars) (some urls) = refl

gen_start-boot :
    (o : Option GenLinks.Links) (uris : Option (RedisUrl × List RedisUrl))
    → elim o [ none ↦ waiting | some vars ↦ GenLinks.open_redis uris vars ] ≡ boot o uris
unfolding GenLinks.open_redis
gen_start-boot none uris = refl
gen_start-boot (some vars) none = refl
gen_start-boot (some vars) (some urls) = refl

mon_start-boot :
    (uris : Option (RedisUrl × List RedisUrl))
    → MonLinks.open_redis uris ≡ boot (some MonLinks.no_links) uris
unfolding MonLinks.open_redis
mon_start-boot none = refl
mon_start-boot (some urls) = refl

-- Where a start has come as far as RabbitMQ: nothing is connected, no interval runs, and the service
-- is wired.
abbrev AtStart : (f : Frequencies) (k : Service) → System (Vars k) → Type 0
AtStart f k s = HoldsOne (channel_of k) s × RunsOnce (times_of f k) s × IsWired k s.vars

module _ (f : Frequencies) where
  fresh-AtStart :
      (k : Service) (vars : Vars k) (n : ℕ)
      → IsFresh k vars
      → AtStart f k (record (before_connections vars) { redis_clients = n; rmq_loops = 1 })
  fresh-AtStart k vars n h = (
    inl (record { no_channel = h.1; no_connection = refl; on_the_way = refl }),
    inl (refl, refl),
    h.0,
  )

  Started-AtStart : (k : Service) {s : System (Vars k)} → Started k s → AtStart f k s
  unfolding StateLinks.start GenLinks.start MonLinks.start TxLinks.start begin_rmq_connection
      open_redis_connection
  Started-AtStart proof_state (state_started attempts uris {s} h) =
      let (vars, opened, same) =
        booted (StateLinks.open_postgres attempts) uris s
          (sym (state_start-boot (StateLinks.open_postgres attempts) uris) ∙ h) in
      subst (AtStart f proof_state) same
        (fresh-AtStart proof_state vars 1 (state_links attempts vars opened))
  Started-AtStart proof_gen (gen_started attempts uris {s} h) =
      let (vars, opened, same) =
        booted (GenLinks.open_postgres attempts) uris s
          (sym (gen_start-boot (GenLinks.open_postgres attempts) uris) ∙ h) in
      subst (AtStart f proof_gen) same
        (fresh-AtStart proof_gen vars 1 (gen_links attempts vars opened))
  Started-AtStart btc_mon (mon_started uris {s} h) =
      let (vars, opened, same) =
        booted (some MonLinks.no_links) uris s (sym (mon_start-boot uris) ∙ h) in
      let none_set : vars.amqp_channel ≡ none = cc opened in
      subst (AtStart f btc_mon) same (fresh-AtStart btc_mon vars 1 (tt, none_set))
  Started-AtStart btc_tx (tx_started {s} h) =
      let same : begin_rmq_connection (before_connections TxLinks.no_links) ≡ s = cc h in
      subst (AtStart f btc_tx) same (fresh-AtStart btc_tx TxLinks.no_links 0 (tt, refl))
  Started-AtStart api (api_started attempts links h) =
      fresh-AtStart api links 1 (api_links attempts links h)

-- Once the start of a service has come as far as RabbitMQ - after any attempts to connect to the
-- database, and for the API once a Redis client is ready -, then after any events of its Redis clients
-- and its connections, failed attempts and any timers: the service either holds the channel of the one
-- connection that is in use, and no loop or timer is on the way to another, or it holds no channel,
-- none is in use, and exactly one loop or timer is on the way; its intervals have been started once,
-- or not yet. In the two services of proofs, cachedProofState.js has the Redis client that the
-- service holds; in the API, token-utils.js has no client or that of the cache of answers. Each
-- module has its own model. A connection that a failed attempt leaves open is not in use.
pub services-HoldsOne :
    (f : Frequencies) (k : Service) {s t : System (Vars k)}
    → Started k s
    → Reach (callbacks_of f k) s t
    → HoldsOne (channel_of k) t × RunsOnce (times_of f k) t × IsWired k t.vars
services-HoldsOne f k started reached =
    let (one, once, wired) = Started-AtStart f k started in
    (
      Reach-HoldsOne (callbacks_of f k) (channel_of k) (callbacks-IsReconnecting f k) reached one,
      Reach-RunsOnce (callbacks_of f k) (times_of f k) (callbacks-IsTimed f k) reached once,
      Reach-KeepsVars (callbacks_of f k) (IsWired k) (callbacks-KeepsVars f k) reached wired,
    )
