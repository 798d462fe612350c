-- ===== src/UsageToken/Silent.antt =====
-- What the API's calls and the functions of token-utils.js leave alone, whatever relation between two
-- states it is that outcomes, caches and counters of ids do not matter to.
use chainpoint_core_erc.Prelude.{ℕ, Bool, Option, none, some, String, List}
use chainpoint_core_erc.Exec.{Error, redis_error, Exec}
use chainpoint_core_erc.Exec.Keeps.{Preorder, Keeps, Keeps-if, Keeps-try_catch, keeps_rules}
use chainpoint_core_erc.World.{Entry, Outcome, done, refused, lost}
use chainpoint_core_erc.World.Calls.{respond, next_outcome}
use chainpoint_core_erc.UsageToken.State.{Jwk, Decoded, ApiWorld}
use chainpoint_core_erc.UsageToken.Calls.{called, query, execute}
use chainpoint_core_erc.UsageToken.TokenUtils.{
  TokenEnv, on_option, add_to_token_hash_cache, remove_from_token_hash_cache, is_token_hash_cached,
  has_member_ip, read_known_iss, cache_known_iss, find_known_peer, is_known_peer_ip, cache_jwk,
  request_jwk, get_cached_jwk, verify_sig_with, verify_sig, get_active_token_by_node_ip,
  cache_core_id, request_core_id, get_cached_core_id,
}
use chainpoint_core_erc.UsageToken.Checks.{ensure_active}
use chainpoint_core_erc.UsageToken.Replies.{Reply, ensure, ensure_some}

-- The fields that the functions below write.
pub record IsSilent (r : Preorder ApiWorld) : Type 0 where
  pub outcomes : (w : ApiWorld) → r.rel w (called w)
  pub token_hashes :
      (w : ApiWorld) (x : List (Entry String)) → r.rel w (record w { token_hashes = x })
  pub known_iss : (w : ApiWorld) (x : List (Entry Bool)) → r.rel w (record w { known_iss = x })
  pub jwks : (w : ApiWorld) (x : List Jwk) → r.rel w (record w { jwks = x })
  pub core_id : (w : ApiWorld) (x : Option String) → r.rel w (record w { core_id = x })
  pub uuids : (w : ApiWorld) (x : ℕ) → r.rel w (record w { uuids = x })

module _ {r : Preorder ApiWorld} (q : IsSilent r) where
  respond-rel :
      {A : Type 0} (o : Outcome) (e : Error) (f : ApiWorld → A × ApiWorld) (w : ApiWorld)
      → r.rel w (f (called w)).1
      → r.rel w (respond o e f (called w)).1
  respond-rel done e f w h = h
  respond-rel refused e f w h = q.outcomes w
  respond-rel lost e f w h = h

  pub Keeps-query : {A : Type 0} (e : Error) (f : ApiWorld → A) → Keeps r (query e f)
  unfolding query
  Keeps-query e f = record {
    at = λ w. respond-rel (next_outcome w.outcomes) e (λ v. (f v, v)) w (q.outcomes w);
  }

  pub Keeps-execute :
      (e : Error) (f : ApiWorld → ApiWorld)
      → ((w : ApiWorld) → r.rel w (f w))
      → Keeps r (execute e f)
  unfolding execute
  Keeps-execute e f h = record {
    at = λ w.
        respond-rel (next_outcome w.outcomes) e (λ v. (tt, f v)) w
          (r.rel_trans w (called w) (f (called w)) (q.outcomes w) (h (called w)));
  }

  pub Keeps-on_option :
      {A B : Type 0} (o : Option A) (m : Exec ApiWorld B) (f : A → Exec ApiWorld B)
      → Keeps r m
      → ((a : A) → Keeps r (f a))
      → Keeps r (on_option o m f)
  unfolding on_option
  Keeps-on_option none m f h k = h
  Keeps-on_option (some a) m f h k = k a

  pub Keeps-ensure_some :
      {R A : Type 0} (o : Option A) (x : Reply R) (f : A → Exec ApiWorld (Reply R))
      → ((a : A) → Keeps r (f a))
      → Keeps r (ensure_some o x f)
  unfolding ensure_some
  Keeps-ensure_some none x f k = search keeps_rules
  Keeps-ensure_some (some a) x f k = k a

  pub Keeps-ensure :
      {R : Type 0} (b : Bool) (x : Reply R) (m : Exec ApiWorld (Reply R))
      → Keeps r m
      → Keeps r (ensure b x m)
  unfolding ensure
  Keeps-ensure b x m h = search keeps_rules

  cache_known_iss-Keeps : (iss : String) (known : Bool) → Keeps r (cache_known_iss iss known)
  unfolding cache_known_iss
  cache_known_iss-Keeps iss known =
      Keeps-try_catch _ _ (Keeps-execute redis_error _ (λ w. q.known_iss w _))
        (λ _. search keeps_rules)

  find_known_peer-Keeps :
      (env : TokenEnv) (redis : Bool) (iss : String) → Keeps r (find_known_peer env redis iss)
  unfolding find_known_peer has_member_ip
  find_known_peer-Keeps env redis iss = search (keeps_rules, Keeps-query, cache_known_iss-Keeps)

  is_known_peer_ip-Keeps : (env : TokenEnv) (iss : String) → Keeps r (is_known_peer_ip env iss)
  unfolding is_known_peer_ip read_known_iss
  is_known_peer_ip-Keeps env iss =
      search (keeps_rules, Keeps-query, Keeps-on_option, find_known_peer-Keeps) depth 8

  cache_jwk-Keeps : (redis : Bool) (k : Jwk) → Keeps r (cache_jwk redis k)
  unfolding cache_jwk
  cache_jwk-Keeps redis k =
      Keeps-if redis _ _
        (Keeps-try_catch _ _ (Keeps-execute redis_error _ (λ w. q.jwks w _))
          (λ _. search keeps_rules))
        (search keeps_rules)

  get_cached_jwk-Keeps : (env : TokenEnv) (kid iss : String) → Keeps r (get_cached_jwk env kid iss)
  unfolding get_cached_jwk request_jwk
  get_cached_jwk-Keeps env kid iss =
      search (keeps_rules, Keeps-query, Keeps-on_option, cache_jwk-Keeps) depth 8

  pub verify_sig-Keeps : (env : TokenEnv) (t : String) (d : Decoded) → Keeps r (verify_sig env t d)
  unfolding verify_sig verify_sig_with
  verify_sig-Keeps env t d =
      search
        (keeps_rules, Keeps-query, Keeps-on_option, is_known_peer_ip-Keeps, get_cached_jwk-Keeps)
        depth 8

  pub get_active_token_by_node_ip-Keeps : (ip : String) → Keeps r (get_active_token_by_node_ip ip)
  unfolding get_active_token_by_node_ip
  get_active_token_by_node_ip-Keeps ip = search (keeps_rules, Keeps-query, Keeps-on_option)

  Keeps-token_hashes :
      (g : ApiWorld → List (Entry String))
      → Keeps r (execute redis_error (λ w. record w { token_hashes = g w }))
  Keeps-token_hashes g = Keeps-execute redis_error _ (λ w. q.token_hashes w (g w))

  pub add_to_token_hash_cache-Keeps : (hash : String) → Keeps r (add_to_token_hash_cache hash)
  unfolding add_to_token_hash_cache
  add_to_token_hash_cache-Keeps hash = search (keeps_rules, Keeps-token_hashes) depth 8

  pub remove_from_token_hash_cache-Keeps :
      (hash : String) → Keeps r (remove_from_token_hash_cache hash)
  unfolding remove_from_token_hash_cache
  remove_from_token_hash_cache-Keeps hash = search (keeps_rules, Keeps-token_hashes) depth 8

  pub is_token_hash_cached-Keeps : (hash : String) → Keeps r (is_token_hash_cached hash)
  unfolding is_token_hash_cached
  is_token_hash_cached-Keeps hash = search (keeps_rules, Keeps-query) depth 8

  cache_core_id-Keeps : (redis : Bool) (id : String) → Keeps r (cache_core_id redis id)
  unfolding cache_core_id
  cache_core_id-Keeps redis id =
      Keeps-if redis _ _
        (Keeps-try_catch _ _ (Keeps-execute redis_error _ (λ w. q.core_id w _))
          (λ _. search keeps_rules))
        (search keeps_rules)

  pub get_cached_core_id-Keeps : (env : TokenEnv) → Keeps r (get_cached_core_id env)
  unfolding get_cached_core_id request_core_id
  get_cached_core_id-Keeps env =
      search (keeps_rules, Keeps-query, Keeps-on_option, cache_core_id-Keeps) depth 8

  pub ensure_active-Keeps :
      {R : Type 0} (env : TokenEnv) (ip t : String) (next : Exec ApiWorld (Reply R))
      → Keeps r next
      → Keeps r (ensure_active env ip t next)
  unfolding ensure_active
  ensure_active-Keeps env ip t next h =
      search (keeps_rules, Keeps-ensure_some, Keeps-ensure, get_active_token_by_node_ip-Keeps) depth
        8
