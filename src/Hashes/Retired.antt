-- ===== src/Hashes/Retired.antt =====
-- node-api-service/lib/endpoints/{hashes,usage-token}.js: the first use of a new token ends the use of the old
-- one.
use chainpoint_core_erc.Prelude.{◌≡◌, sym, ap, false, some, String, List, ◌==◌, eq_refl}
use chainpoint_core_erc.Exec.{ok, Exec}
use chainpoint_core_erc.CachedState.Cache.{cache_get}
use chainpoint_core_erc.Utils.{get_client_ip}
use chainpoint_core_erc.UsageToken.State.{Decoded, ApiWorld}
use chainpoint_core_erc.UsageToken.Replies.{Reply, sent}
use chainpoint_core_erc.UsageToken.Checks.{TokenRequest}
use chainpoint_core_erc.UsageToken.TokenUtils.{TokenEnv, find_active}
use chainpoint_core_erc.UsageToken.{post_token_refresh, post_token_audience_update}
use chainpoint_core_erc.UsageToken.Refresh.{IsVerified, post_token_refresh_charges}
use chainpoint_core_erc.UsageToken.Audience.{post_token_audience_update_limits}
use chainpoint_core_erc.Hashes.{confirm_token}
use chainpoint_core_erc.Hashes.Activated.{calm, IsActivated, confirm_token-IsActivated}

module _ (env : TokenEnv) (req : TokenRequest) (ip old t : String) (w : ApiWorld)
    (given : req.token_string ≡ some old) (client : get_client_ip req.addresses ≡ some ip)
    (other : t == env.sha256 old ≡ false) (active : find_active ip w.active_tokens ≡ some t) where
  -- The token that a handler has verified is the request's, and so it is not the active one.
  not_active :
      (aud : List String) (t' : String) (d : Decoded) (ip' : String)
      → IsVerified env req w aud t' d ip'
      → ¬ (find_active ip' w.active_tokens ≡ some (env.sha256 t'))
  not_active aud t' d ip' v = λ a.
      let same_token : old ≡ t' = cc (given, v.token_given) in
      let same_ip : ip ≡ ip' = cc (client, v.client) in
      let same_hash : t ≡ env.sha256 old = cc (active, a, same_token, same_ip) in
      absurd (cc (other, ap (λ x. t == x) (sym same_hash), eq_refl t))

  not_refreshed : (s : String) → ¬ ((post_token_refresh env req w).0 ≡ ok (sent s))
  not_refreshed s = λ h.
      let r = post_token_refresh_charges env req w s h in
      not_active r.aud r.given_token r.decoded r.ip r.verified r.active

  not_updated : (s : String) → ¬ ((post_token_audience_update env req w).0 ≡ ok (sent s))
  not_updated s = λ h.
      let r = post_token_audience_update_limits env req w s h in
      not_active r.aud r.given_token r.decoded r.ip r.verified r.active

-- Where Redis is connected and no call fails, the confirmation step of a token that awaits its first use
-- goes on in a state where the token is the Node's active one, was broadcast to the network, and
-- awaits its use no more; in that state a request of the Node with a token of another hash is given
-- no token, neither by a refresh nor by an audience update, whatever its token says.
pub confirm_token_retires :
    {R : Type 0} (env : TokenEnv) (req : TokenRequest) (ip t old x : String)
    (next : Exec ApiWorld (Reply R)) (w : ApiWorld)
    → cache_get w.clock t w.token_hashes ≡ some x
    → req.token_string ≡ some old
    → get_client_ip req.addresses ≡ some ip
    → t == env.sha256 old ≡ false
    → (v : ApiWorld) × (confirm_token env ip t next (calm w) ≡ next v)
      × IsActivated ip t w v
      × ((s : String) → ¬ ((post_token_refresh env req v).0 ≡ ok (sent s)))
      × ((s : String) → ¬ ((post_token_audience_update env req v).0 ≡ ok (sent s)))
confirm_token_retires env req ip t old x next w cached given client other =
    let (v, e, a) = confirm_token-IsActivated env ip t x next w cached in
    (
      v,
      e,
      a,
      not_refreshed env req ip old t v given client other a.active,
      not_updated env req ip old t v given client other a.active,
    )
