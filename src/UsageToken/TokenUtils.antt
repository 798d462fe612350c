-- ===== src/UsageToken/TokenUtils.antt =====
-- node-api-service/lib/token-utils.js: the Redis keys, the check of a token's signature, and the broadcast
-- of a token's hash; and the two queries of node-lib/lib/models/ActiveToken.js and StakedCore.js.
use chainpoint_core_erc.Prelude.{
  ℕ, ◌+◌, ◌*◌, ◌/◌, Bool, true, false, not, Option, none, some, String, List, [], ◌∷◌, ◌==◌,
  if◌then◌else◌, eqb, ◌&&◌,
}
use chainpoint_core_erc.Prelude.Lists.{filter_by, includes}
use chainpoint_core_erc.Exec.{
  db_error, redis_error, publish_error, Exec, pure, gets, try_catch, ◌>>=◌, ◌>>◌,
}
use Prim.Native.Char.{code}
use chainpoint_core_erc.Utils.{slice_from, lower}
use chainpoint_core_erc.Utils.Ip.{codes}
use chainpoint_core_erc.CachedState.Cache.{cache_get, cache_set}
use chainpoint_core_erc.UsageToken.State.{
  Payload, Decoded, Jwk, CoreStatus, TokenTx, ActiveToken, ApiWorld,
}
use chainpoint_core_erc.UsageToken.Calls.{query, execute}

-- What the endpoints take from their environment: this Core's URI and the host in it; packages jsonwebtoken and node-jose (`decode`,
-- `verifies` with a key, `sign`, which may fail), crypto and uuid; and the status that a Core gives,
-- `none` if the request fails.
pub record TokenEnv : Type 0 where
  pub base_uri : String
  pub core_ip : String
  pub decode : String → Option Decoded
  pub verifies : String → Jwk → Bool
  pub sign : Payload → Option String
  pub sha256 : String → String
  pub uuid : ℕ → String
  pub core_status : String → Option (Option CoreStatus)

-- `Math.ceil(Date.now() / 1000)`
abbrev pub now_seconds : ApiWorld → ℕ
now_seconds w = (w.clock + 999) / 1000

-- `if (o) return …`
unfoldable pub on_option :
    {A B : Type 0} → Option A → Exec ApiWorld B → (A → Exec ApiWorld B) → Exec ApiWorld B
on_option none m f = m
on_option (some a) m f = f a

-- `undefined`, which counts as false, without a Redis connection
unfoldable pub add_to_token_hash_cache : String → Exec ApiWorld Bool
add_to_token_hash_cache new_token_hash = do
  redis ← gets (λ w. w.redis)
  if redis
      then try_catch
          (do
            execute redis_error (λ w. record w {
              token_hashes =
                  cache_set w.clock (30 * 60 * 60 * 24) new_token_hash "cached" w.token_hashes;
            })
            pure true)
          (λ _. pure false)
      else pure false

unfoldable pub is_token_hash_cached : String → Exec ApiWorld Bool
is_token_hash_cached token_hash = do
  redis ← gets (λ w. w.redis)
  if redis
      then try_catch
          (do
            cached ← query redis_error (λ w. cache_get w.clock token_hash w.token_hashes)
            pure (elim cached [ none ↦ false | some _ ↦ true ]))
          (λ _. pure false)
      else pure false

unfoldable pub remove_from_token_hash_cache : String → Exec ApiWorld Bool
remove_from_token_hash_cache token_hash = do
  redis ← gets (λ w. w.redis)
  if redis
      then try_catch
          (do
            execute redis_error (λ w. record w {
              token_hashes = filter_by (λ e. not (e.key == token_hash)) w.token_hashes;
            })
            pure true)
          (λ _. pure false)
      else pure false

-- `StakedCore.hasMemberIPAsync`
unfoldable pub has_member_ip : String → Exec ApiWorld Bool
has_member_ip ip = query db_error (λ w. includes ip w.staked_cores)

unfoldable pub read_known_iss : String → Exec ApiWorld (Option Bool)
read_known_iss iss =
    try_catch (query redis_error (λ w. cache_get w.clock iss w.known_iss)) (λ _. pure none)

-- known issuers are kept for 24 hours, unknown ones for a minute
unfoldable pub cache_known_iss : String → Bool → Exec ApiWorld (Unit {0})
cache_known_iss iss known =
    try_catch
      (execute redis_error (λ w. record w {
        known_iss = cache_set w.clock (if known then 60 * 60 * 24 else 60) iss known w.known_iss;
      }))
      (λ _. pure tt)

-- The text starts with the codes, its letters in either case; the codes are in lower case.
abbrev pub starts_with_any_case : List ℕ → String → Bool
starts_with_any_case [] s = true
starts_with_any_case (k ∷ ks) String.[] = false
starts_with_any_case (k ∷ ks) (String.◌∷◌ c s) = eqb (lower (code c)) k && starts_with_any_case ks s

-- `iss.replace(/^(http|https):\/\//i, '')`
unfoldable pub strip_scheme : String → String
strip_scheme iss =
    if starts_with_any_case (codes "http://") iss
    then slice_from 7 iss
    else if starts_with_any_case (codes "https://") iss
    then slice_from 8 iss
    else iss

unfoldable pub find_known_peer : TokenEnv → Bool → String → Exec ApiWorld Bool
find_known_peer env redis iss = do
  known ← try_catch (has_member_ip (strip_scheme iss)) (λ _. pure false)
  if redis then cache_known_iss iss known else pure tt
  pure known

unfoldable pub is_known_peer_ip : TokenEnv → String → Exec ApiWorld Bool
is_known_peer_ip env iss = do
  redis ← gets (λ w. w.redis)
  cached ← if redis then read_known_iss iss else pure none
  on_option cached (find_known_peer env redis iss) pure

abbrev pub find_jwk : String → List Jwk → Option Jwk
find_jwk kid [] = none
find_jwk kid (k ∷ ks) = if k.kid == kid then some k else find_jwk kid ks

-- the key of a status, if it is the one asked for
abbrev pub jwk_of_status : String → Option (Option CoreStatus) → Option Jwk
jwk_of_status kid none = none
jwk_of_status kid (some none) = none
jwk_of_status kid (some (some s)) = elim s.jwk [
  | none ↦ none
  | some k ↦ if k.kid == kid then some k else none
]

unfoldable pub cache_jwk : Bool → Jwk → Exec ApiWorld (Unit {0})
cache_jwk redis k =
    if redis
    then try_catch (execute redis_error (λ w. record w { jwks = k ∷ w.jwks })) (λ _. pure tt)
    else pure tt

unfoldable pub request_jwk : TokenEnv → Bool → String → String → Exec ApiWorld (Option Jwk)
request_jwk env redis kid iss =
    on_option (jwk_of_status kid (env.core_status iss)) (pure none)
      (λ k. do cache_jwk redis k; pure (some k))

unfoldable pub get_cached_jwk : TokenEnv → String → String → Exec ApiWorld (Option Jwk)
get_cached_jwk env kid iss = do
  redis ← gets (λ w. w.redis)
  cached ←
      if redis
      then try_catch (query redis_error (λ w. find_jwk kid w.jwks)) (λ _. pure none)
      else pure none
  on_option cached (request_jwk env redis kid iss) (λ k. pure (some k))

-- whether `verifySigAsync` returns null; its errors are all an InvalidArgumentError
unfoldable pub verify_sig_with : TokenEnv → String → String → String → Exec ApiWorld Bool
verify_sig_with env token_string kid iss = do
  known ← is_known_peer_ip env iss
  if known
      then (do
        jwk ← get_cached_jwk env kid iss
        pure (elim jwk [ none ↦ false | some k ↦ env.verifies token_string k ]))
      else pure false

unfoldable pub verify_sig : TokenEnv → String → Decoded → Exec ApiWorld Bool
verify_sig env token_string d =
    on_option d.kid (pure false)
      (λ kid. on_option d.claims.iss (pure false) (λ iss. verify_sig_with env token_string kid iss))

abbrev pub id_of_status : Option (Option CoreStatus) → Option String
id_of_status none = none
id_of_status (some none) = none
id_of_status (some (some s)) = s.node_id

unfoldable pub cache_core_id : Bool → String → Exec ApiWorld (Unit {0})
cache_core_id redis id =
    if redis
    then try_catch (execute redis_error (λ w. record w { core_id = some id })) (λ _. pure tt)
    else pure tt

unfoldable pub request_core_id : TokenEnv → Bool → Exec ApiWorld (Option String)
request_core_id env redis =
    on_option (id_of_status (env.core_status env.base_uri)) (pure none)
      (λ id. do cache_core_id redis id; pure (some id))

unfoldable pub get_cached_core_id : TokenEnv → Exec ApiWorld (Option String)
get_cached_core_id env = do
  redis ← gets (λ w. w.redis)
  cached ←
      if redis then try_catch (query redis_error (λ w. w.core_id)) (λ _. pure none) else pure none
  on_option cached (request_core_id env redis) (λ id. pure (some id))

-- every error of the RPC call is thrown again
unfoldable pub broadcast_core_tx : Option String → String → String → Exec ApiWorld (Unit {0})
broadcast_core_tx core_id node_ip token_hash = execute publish_error (λ w.
    let tx : TokenTx = record {
      node_ip = node_ip;
      token_hash = token_hash;
      core_id = core_id;
      time = now_seconds w;
    } in
    record w { broadcasts = tx ∷ w.broadcasts })

abbrev pub find_active : String → List ActiveToken → Option String
find_active ip [] = none
find_active ip (a ∷ as_) = if a.node_ip == ip then some a.token_hash else find_active ip as_

unfoldable pub get_active_token_by_node_ip : String → Exec ApiWorld (Option String)
get_active_token_by_node_ip ip = query db_error (λ w. find_active ip w.active_tokens)

-- one row for each Node
unfoldable pub write_active_token : ActiveToken → Exec ApiWorld Bool
write_active_token a = do
  execute db_error (λ w. record w {
    active_tokens = a ∷ filter_by (λ b. not (b.node_ip == a.node_ip)) w.active_tokens;
  })
  pure true
