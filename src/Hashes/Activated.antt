-- ===== src/Hashes/Activated.antt =====
-- node-api-service/lib/endpoints/hashes.js: the confirmation step, when no call fails.
use chainpoint_core_erc.Prelude.{
  ◌≡◌, refl, ◌∙◌, ℕ, true, not, Option, none, some, String, List, [], ◌∷◌, ◌==◌, inl, inr,
  Bool-cases, eq_refl,
}
use chainpoint_core_erc.Prelude.Lists.{filter_by}
use chainpoint_core_erc.Exec.{ok, Exec, pure, gets, try_catch, ◌>>=◌, ◌>>◌}
use chainpoint_core_erc.Exec.Steps.{>>=-ok, try_catch-ok}
use chainpoint_core_erc.World.{Entry}
use chainpoint_core_erc.CachedState.Cache.{cache_get}
use chainpoint_core_erc.UsageToken.State.{TokenTx, ApiWorld}
use chainpoint_core_erc.UsageToken.Calls.{query, execute}
use chainpoint_core_erc.UsageToken.Replies.{Reply, ensure}
use chainpoint_core_erc.UsageToken.TokenUtils.{
  TokenEnv, on_option, now_seconds, is_token_hash_cached, remove_from_token_hash_cache,
  id_of_status, cache_core_id, request_core_id, get_cached_core_id, broadcast_core_tx, find_active,
  write_active_token,
}
use chainpoint_core_erc.Hashes.{try_write, try_broadcast, activate_cached, confirm_token}

-- No external call fails, and Redis is connected.
abbrev pub calm : ApiWorld → ApiWorld
calm w = record w { outcomes = []; redis = true }

requested :
    (o : Option String) (w : ApiWorld)
    → (c c' : Option String) × (on_option o
          (pure none)
          (λ id. do cache_core_id true id; pure (some id))
          (calm w)
        ≡ (ok c, record (calm w) { core_id = c' }))
unfolding on_option cache_core_id execute try_catch pure ◌>>=◌
requested none w = (none, w.core_id, refl)
requested (some id) w = (some id, some id, refl)

cached_or_requested :
    (core : Option String) (env : TokenEnv) (w : ApiWorld)
    → (c c' : Option String) × (on_option core
          (request_core_id env true)
          (λ id. pure (some id))
          (calm w)
        ≡ (ok c, record (calm w) { core_id = c' }))
unfolding on_option request_core_id pure
cached_or_requested none env w = requested (id_of_status (env.core_status env.base_uri)) w
cached_or_requested (some id) env w = (some id, w.core_id, refl)

get_cached_core_id-calm :
    (env : TokenEnv) (w : ApiWorld)
    → (c c' : Option String) × (get_cached_core_id env (calm w)
        ≡ (ok c, record (calm w) { core_id = c' }))
unfolding get_cached_core_id query gets try_catch pure ◌>>=◌
get_cached_core_id-calm env w = cached_or_requested w.core_id env w

is_token_hash_cached-calm :
    (t x : String) (w : ApiWorld)
    → cache_get w.clock t w.token_hashes ≡ some x
    → is_token_hash_cached t (calm w) ≡ (ok true, calm w)
unfolding is_token_hash_cached query gets try_catch pure ◌>>=◌
is_token_hash_cached-calm t x w h = rw h refl

-- The state after the confirmation: the Core's own id and the one in the cache are `c` and `c'`.
abbrev written : String → String → ApiWorld → ApiWorld
written ip t w = record (calm w) {
  active_tokens =
      record { node_ip = ip; token_hash = t }
      ∷ filter_by (λ b. not (b.node_ip == ip)) w.active_tokens;
}

abbrev announced : Option String → Option String → String → String → ApiWorld → ApiWorld
announced c c' ip t w = record (written ip t w) {
  core_id = c';
  broadcasts =
      record { node_ip = ip; token_hash = t; core_id = c; time = now_seconds w } ∷ w.broadcasts;
}

abbrev forgotten : String → ApiWorld → ApiWorld
forgotten t w = record w { token_hashes = filter_by (λ e. not (e.key == t)) w.token_hashes }

try_write-calm :
    (ip t : String) (w : ApiWorld) → try_write ip t (calm w) ≡ (ok true, written ip t w)
unfolding try_write write_active_token execute try_catch pure ◌>>=◌
try_write-calm ip t w = refl

try_broadcast-calm :
    (env : TokenEnv) (ip t : String) (w : ApiWorld)
    → (c c' : Option String) × (try_broadcast env ip t (written ip t w)
        ≡ (ok true, announced c c' ip t w))
unfolding try_broadcast broadcast_core_tx execute pure
try_broadcast-calm env ip t w =
    let (c, c', e) = get_cached_core_id-calm env (written ip t w) in
    (c, c', try_catch-ok _ _ (>>=-ok _ _ e ∙ >>=-ok (broadcast_core_tx c ip t) _ refl))

remove_from_token_hash_cache-calm :
    (t : String) (w : ApiWorld)
    → remove_from_token_hash_cache t (calm w) ≡ (ok true, forgotten t (calm w))
unfolding remove_from_token_hash_cache execute gets try_catch pure ◌>>=◌
remove_from_token_hash_cache-calm t w = refl

cache_get-filter :
    (now : ℕ) (t : String) (es : List (Entry String))
    → cache_get now t (filter_by (λ e. not (e.key == t)) es) ≡ none
unfolding cache_get
cache_get-filter now t [] = refl
cache_get-filter now t (e ∷ es) = elim (Bool-cases (e.key == t)) [
  | inl h ↦ rw h (cache_get-filter now t es)
  | inr h ↦ rw (h, h) (cache_get-filter now t es)
]

-- The token is the Node's active one, for the network too, and awaits its use no more.
pub record IsActivated (ip t : String) (w v : ApiWorld) : Type 0 where
  pub active : find_active ip v.active_tokens ≡ some t
  pub used : cache_get v.clock t v.token_hashes ≡ none
  pub tx : TokenTx
  pub broadcast : v.broadcasts ≡ tx ∷ w.broadcasts
  pub of_node : tx.node_ip ≡ ip
  pub of_token : tx.token_hash ≡ t

forgotten-IsActivated :
    (c c' : Option String) (ip t : String) (w : ApiWorld)
    → IsActivated ip t w (forgotten t (announced c c' ip t w))
forgotten-IsActivated c c' ip t w = record {
  active = rw (eq_refl ip) refl;
  used = cache_get-filter w.clock t w.token_hashes;
  tx = record { node_ip = ip; token_hash = t; core_id = c; time = now_seconds w };
  broadcast = refl;
  of_node = refl;
  of_token = refl;
}

module _ {R : Type 0} where
  activate_cached-eq :
      (env : TokenEnv) (ip t : String) (next : Exec ApiWorld (Reply R)) (w : ApiWorld)
      → (v : ApiWorld) × (activate_cached env ip t next (calm w) ≡ next v) × IsActivated ip t w v
  unfolding activate_cached ensure
  activate_cached-eq env ip t next w =
      let (c, c', e) = try_broadcast-calm env ip t w in
      (
        forgotten t (announced c c' ip t w),
        >>=-ok (try_write ip t) _ (try_write-calm ip t w)
            ∙ (>>=-ok (try_broadcast env ip t) _ e
                ∙ >>=-ok (remove_from_token_hash_cache t) _
                    (remove_from_token_hash_cache-calm t (announced c c' ip t w))),
        forgotten-IsActivated c c' ip t w,
      )

-- Where Redis is connected and no call fails, the confirmation step of a token that awaits its first use
-- goes on with the rest of the handler, in a state where the token is the Node's active one, was
-- broadcast to the network, and awaits its use no more.
pub confirm_token-IsActivated :
    {R : Type 0} (env : TokenEnv) (ip t x : String) (next : Exec ApiWorld (Reply R)) (w : ApiWorld)
    → cache_get w.clock t w.token_hashes ≡ some x
    → (v : ApiWorld) × (confirm_token env ip t next (calm w) ≡ next v) × IsActivated ip t w v
unfolding confirm_token
confirm_token-IsActivated env ip t x next w h =
    let (v, e, a) = activate_cached-eq env ip t next w in
    (v, >>=-ok (is_token_hash_cached t) _ (is_token_hash_cached-calm t x w h) ∙ e, a)
