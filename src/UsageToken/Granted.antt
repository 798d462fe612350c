-- ===== src/UsageToken/Granted.antt =====
-- usage-token.js: when a refresh gives a token.
use chainpoint_core_erc.Prelude.{
  ◌≡◌, refl, sym, ap, subst, ◌∙◌, true, false, not, some, String, List, [], ◌+◌, ◌*◌, eq_refl,
}
use chainpoint_core_erc.Exec.{ok, Exec, gets, pure, try_catch, ◌>>=◌}
use chainpoint_core_erc.World.Calls.{later_outcomes}
use chainpoint_core_erc.UsageToken.State.{Decoded, Claims, number, Payload, ApiWorld}
use chainpoint_core_erc.UsageToken.TokenUtils.{
  TokenEnv, now_seconds, verify_sig, find_active, get_active_token_by_node_ip,
  add_to_token_hash_cache,
}
use chainpoint_core_erc.UsageToken.Calls.{called, query, execute}
use chainpoint_core_erc.UsageToken.Checks.{
  TokenRequest, with_aud, with_token, with_subject, ensure_active, less_than_one, minus_one,
  later_of,
}
use chainpoint_core_erc.UsageToken.Replies.{
  Reply, sent, ensure, ensure_some, internal_server, invalid_argument,
}
use chainpoint_core_erc.UsageToken.{
  next_uuid, construct_token_payload, refresh_token, post_token_refresh,
}
use chainpoint_core_erc.UsageToken.Frame.{verify_sig-SameTokens}
use chainpoint_core_erc.UsageToken.Refresh.{IsVerified, with_verified}

-- `m` sends `s`.
abbrev Sends : String → Exec ApiWorld (Reply String) → ApiWorld → Type 0
Sends s m w = (m w).0 ≡ ok (sent s)

-- No external call fails, and Redis is connected.
pub record IsCalm (w : ApiWorld) : Type 0 where
  pub quiet : w.outcomes ≡ []
  pub connected : w.redis ≡ true

add_to_token_hash_cache-calm :
    (hash : String) (w : ApiWorld) → IsCalm w → (add_to_token_hash_cache hash w).0 ≡ ok true
unfolding add_to_token_hash_cache execute try_catch gets pure ◌>>=◌
add_to_token_hash_cache-calm hash w calm = rw (calm.connected, calm.quiet) refl

-- The condition on a signer: it signs every payload.
abbrev pub IsSigning : TokenEnv → Type 0
IsSigning env = (p : Payload) → (s : String) × (env.sign p ≡ some s)

cached_reply-gives :
    (hash t : String) (w : ApiWorld)
    → IsCalm w
    → Sends t
        (do cached ← add_to_token_hash_cache hash; ensure cached internal_server (pure (sent t)))
        w
unfolding ensure pure ◌>>=◌
cached_reply-gives hash t w calm = rw (add_to_token_hash_cache-calm hash w calm) refl

refresh_token-gives :
    (env : TokenEnv) (ip : String) (aud : List String) (claims : Claims) (w : ApiWorld)
    → IsSigning env
    → IsCalm w
    → (s : String) × Sends s (refresh_token env ip aud claims) w
unfolding refresh_token construct_token_payload next_uuid gets pure ◌>>=◌ ensure_some
refresh_token-gives env ip aud claims w signing calm =
    let p : Payload = record {
      jti = env.uuid w.uuids;
      iss = env.base_uri;
      sub = ip;
      exp = number (later_of claims.exp (now_seconds w) + 60 * 60);
      bal = minus_one claims.bal;
      aud = aud;
      aulr = number 3;
    } in
    let (s, e) = signing p in
    (
      s,
      rw e (
          cached_reply-gives (env.sha256 s) s (record w { uuids = w.uuids + 1 })
            (record { quiet = calm.quiet; connected = calm.connected })),
    )

ensure_active-gives :
    (env : TokenEnv) (ip t : String) (m : Exec ApiWorld (Reply String)) (w : ApiWorld)
    → w.outcomes ≡ []
    → find_active ip w.active_tokens ≡ some (env.sha256 t)
    → ensure_active env ip t m w ≡ m (called w)
unfolding ensure_active get_active_token_by_node_ip query try_catch pure ◌>>=◌ ensure_some ensure
ensure_active-gives env ip t m w q a = rw (q, a, eq_refl (env.sha256 t)) refl

module _ (env : TokenEnv) (req : TokenRequest) where
  with_verified-gives :
      (f : List String → String → Decoded → String → Exec ApiWorld (Reply String)) (w : ApiWorld)
      (aud : List String) (t : String) (d : Decoded) (ip : String)
      → IsVerified env req w aud t d ip
      → with_verified env req f w ≡ f aud t d ip (verify_sig env t d w).1
  unfolding with_aud with_token with_subject ensure_some ensure ◌>>=◌
  with_verified-gives f w aud t d ip v =
      rw
        (
          v.client,
          v.aud_given,
          v.aud_valid,
          v.token_given,
          v.token_decoded,
          v.token_verified,
          v.subject,
          eq_refl ip,
        )
        refl

  -- Where Redis is connected, no external call fails and the signer signs, a verified request with the
  -- Node's active token, whose balance is not below one, is given a token.
  pub post_token_refresh_gives :
      (w : ApiWorld) (aud : List String) (t : String) (d : Decoded) (ip : String)
      → IsVerified env req w aud t d ip
      → IsSigning env
      → IsCalm w
      → find_active ip w.active_tokens ≡ some (env.sha256 t)
      → less_than_one d.claims.bal ≡ false
      → (s : String) × ((post_token_refresh env req w).0 ≡ ok (sent s))
  unfolding post_token_refresh ensure
  post_token_refresh_gives w aud t d ip verified signing calm a b =
      let v = (verify_sig env t d w).1 in
      let same = (verify_sig-SameTokens env t d).at w in
      let quiet = same.quiet calm.quiet in
      let a' = subst (λ ts. find_active ip ts ≡ some (env.sha256 t)) (sym same.active_tokens) a in
      let (s, g) =
        refresh_token-gives env ip aud d.claims (called v) signing
          (record { quiet = ap later_outcomes quiet; connected = same.redis ∙ calm.connected }) in
      let rest : List String → String → Decoded → String → Exec ApiWorld (Reply String) =
        λ aud' t' d' ip'.
          ensure (not (less_than_one d'.claims.bal)) invalid_argument
            (ensure_active env ip' t' (refresh_token env ip' aud' d'.claims)) in
      (
        s,
        rw
            (
              with_verified-gives rest w aud t d ip verified,
              b,
              ensure_active-gives env ip t (refresh_token env ip aud d.claims) v quiet a',
            )
            g,
      )
