-- ===== src/UsageToken/Audience.antt =====
-- usage-token.js: what a token that an audience update gives says, and what making a token the active
-- one does.
use chainpoint_core_erc.Prelude.{
  ℕ, zero, suc, ◌<◌, ◌≤◌, ◌*◌, ap, arith, ◌≡◌, refl, subst, true, false, not, some, String, List,
}
use chainpoint_core_erc.Exec.{Result, ok, err, handle, gets, pure, try_catch, ◌>>=◌, ◌>>◌}
use chainpoint_core_erc.UsageToken.State.{
  Claim, missing, null, text, number, negative, Claims, Decoded, ApiWorld,
}
use chainpoint_core_erc.UsageToken.TokenUtils.{
  TokenEnv, find_active, get_cached_core_id, broadcast_core_tx,
}
use chainpoint_core_erc.UsageToken.Checks.{
  TokenRequest, ensure_active, less_than_one, minus_one, is_usable_exp, is_unexpired,
  is_usable_aulr,
}
use chainpoint_core_erc.UsageToken.Replies.{
  Reply, sent, invalid_argument, internal_server, unauthorized, too_many_requests, ensure,
}
use chainpoint_core_erc.UsageToken.{
  store_active_token, activate_token, update_audience, post_token_audience_update,
}
use chainpoint_core_erc.UsageToken.Inversion.{
  gives, >>=-GivesToken, GivesToken, ensure-GivesToken, ensure_active-GivesToken,
}
use chainpoint_core_erc.UsageToken.Refresh.{
  IsIssued, IsVerified, not-true, with_verified-GivesToken, issue-GivesToken,
}

module _ {s : String × ApiWorld} (env : TokenEnv) (ip : String) where
  handle-GivesToken :
      (x : Result (Reply String)) (w : ApiWorld)
      → handle x (λ _. pure internal_server) w ≡ (ok (sent s.0), s.1)
      → ◌≡◌ {A = Result (Reply String) × ApiWorld} (x, w) (ok (sent s.0), s.1)
  unfolding pure
  handle-GivesToken (ok r) w h = h
  handle-GivesToken (err e) w h = absurd (cc h)

  broadcast_then-GivesToken :
      (t : String) (w : ApiWorld)
      → GivesToken s
          (do
            core_id ← get_cached_core_id env
            broadcast_core_tx core_id ip (env.sha256 t)
            pure (sent t))
          w
      → t ≡ s.0
  unfolding pure
  broadcast_then-GivesToken t w h =
      let (core_id, _, k) = >>=-GivesToken (get_cached_core_id env) _ w h in
      let (u, _, k') =
        >>=-GivesToken (broadcast_core_tx core_id ip (env.sha256 t)) _ (get_cached_core_id env w).1
          k in
      cc k'

  pub activate_token-GivesToken :
      (t : String) (w : ApiWorld) → GivesToken s (activate_token env ip t) w → t ≡ s.0
  unfolding activate_token try_catch
  activate_token-GivesToken t w h =
      let (b, _, k) = >>=-GivesToken (store_active_token ip (env.sha256 t)) _ w h in
      broadcast_then-GivesToken t _ (handle-GivesToken _ _ k)

  pub update_audience-GivesToken :
      (aud : List String) (claims : Claims) (w : ApiWorld)
      → GivesToken s (update_audience env ip aud claims) w
      → IsIssued env ip aud claims.exp claims.bal (minus_one claims.aulr) s.0
  unfolding update_audience
  update_audience-GivesToken aud claims w h =
      let (t, issued, v, k) = issue-GivesToken env ip aud _ _ _ _ w h in
      subst (IsIssued env ip aud _ _ _) (activate_token-GivesToken t v k) issued

-- The expiration of a token that may still be used: a positive number of seconds, not yet past.
pub record IsLiveUntil (exp : Claim) (clock : ℕ) : Type 0 where
  pub seconds : ℕ
  pub is_number : exp ≡ number seconds
  pub positive : 0 < seconds
  pub not_past : clock ≤ seconds * 1000

live_until :
    (exp : Claim) (clock : ℕ)
    → is_usable_exp exp ≡ true
    → is_unexpired exp clock ≡ true
    → IsLiveUntil exp clock
live_until (number n) clock u e = record {
  seconds = n;
  is_number = refl;
  positive = ground arith;
  not_past = ground arith;
}
live_until (negative n) clock u e = absurd (cc e)
live_until missing clock u e = absurd (cc u)
live_until null clock u e = absurd (cc u)
live_until text clock u e = absurd (cc u)

-- A number of updates left.
updates_left :
    (aulr : Claim)
    → is_usable_aulr aulr ≡ true
    → less_than_one aulr ≡ false
    → (left : ℕ) × (aulr ≡ number (suc left))
updates_left (number zero) u h = absurd (cc h)
updates_left (number (suc n)) u h = (n, refl)
updates_left (negative n) u h = absurd (cc h)
updates_left missing u h = absurd (cc u)
updates_left null u h = absurd (cc u)
updates_left text u h = absurd (cc u)

-- What an audience update promises for the token `s` that it gives.
pub record IsAudienceUpdate (env : TokenEnv) (req : TokenRequest) (w : ApiWorld) (s : String)
    : Type 0 where
  pub aud : List String
  pub given_token : String
  pub decoded : Decoded
  pub ip : String
  pub verified : IsVerified env req w aud given_token decoded ip
  pub active : find_active ip w.active_tokens ≡ some (env.sha256 given_token)
  pub unexpired : is_unexpired decoded.claims.exp w.clock ≡ true
  pub live : IsLiveUntil decoded.claims.exp w.clock
  pub has_updates : less_than_one decoded.claims.aulr ≡ false
  pub left : ℕ
  pub counted : decoded.claims.aulr ≡ number (suc left)
  pub issued :
      IsIssued env ip aud decoded.claims.exp decoded.claims.bal (minus_one decoded.claims.aulr) s
  pub issued_counted : IsIssued env ip aud decoded.claims.exp decoded.claims.bal (number left) s

audience_rest-GivesToken :
    {s : String × ApiWorld} (env : TokenEnv) (aud : List String) (t : String) (d : Decoded)
    (ip : String) (v : ApiWorld)
    → GivesToken s
        (ensure (is_usable_exp d.claims.exp) invalid_argument (do
          clock ← gets (λ w. w.clock)
          ensure (is_unexpired d.claims.exp clock) unauthorized (
              ensure (is_usable_aulr d.claims.aulr) invalid_argument (
                ensure
                  (not (less_than_one d.claims.aulr))
                  too_many_requests
                  (ensure_active env ip t (update_audience env ip aud d.claims))))))
        v
    → (is_usable_exp d.claims.exp ≡ true)
      × (is_unexpired d.claims.exp v.clock ≡ true)
      × (is_usable_aulr d.claims.aulr ≡ true)
      × (less_than_one d.claims.aulr ≡ false)
      × (find_active ip v.active_tokens ≡ some (env.sha256 t))
      × IsIssued env ip aud d.claims.exp d.claims.bal (minus_one d.claims.aulr) s.0
unfolding gets ◌>>=◌
audience_rest-GivesToken env aud t d ip v h =
    let (x, k) = ensure-GivesToken v _ invalid_argument _ refl h in
    let (e, k') = ensure-GivesToken v (is_unexpired d.claims.exp v.clock) unauthorized _ refl k in
    let (y, k'') = ensure-GivesToken v (is_usable_aulr d.claims.aulr) invalid_argument _ refl k' in
    let (u, k3) =
      ensure-GivesToken v (not (less_than_one d.claims.aulr)) too_many_requests _ refl k'' in
    let (z, _, a, k4) = ensure_active-GivesToken v env ip t _ k3 in
    (
      x,
      e,
      y,
      not-true (less_than_one d.claims.aulr) u,
      a,
      update_audience-GivesToken env ip aud d.claims z k4,
    )

-- Whatever the outcomes of the calls, a token that an audience update gives was asked for with the
-- Node's active token, verified, whose expiration is a positive number of seconds that is not past,
-- and whose audience updates left are a number from one on; it is for that Node and the audience that
-- was asked for, with the same expiration and balance, and one audience update less.
pub post_token_audience_update_limits :
    (env : TokenEnv) (req : TokenRequest) (w : ApiWorld) (s : String)
    → (post_token_audience_update env req w).0 ≡ ok (sent s)
    → IsAudienceUpdate env req w s
unfolding post_token_audience_update
post_token_audience_update_limits env req w s h =
    let (aud, t, d, ip, v, verified, same, k) =
      with_verified-GivesToken env req _ w (gives (post_token_audience_update env req) w h) in
    let (x, e, y, u, a, issued) = audience_rest-GivesToken env aud t d ip v k in
    let (left, counted) = updates_left d.claims.aulr y u in
    record {
      aud = aud;
      given_token = t;
      decoded = d;
      ip = ip;
      verified = verified;
      active = subst (λ ts. find_active ip ts ≡ some (env.sha256 t)) same.active_tokens a;
      unexpired = subst (λ c. is_unexpired d.claims.exp c ≡ true) same.clock e;
      live =
          live_until d.claims.exp w.clock x
            (subst (λ c. is_unexpired d.claims.exp c ≡ true) same.clock e);
      has_updates = u;
      left = left;
      counted = counted;
      issued = issued;
      issued_counted =
          subst (λ c. IsIssued env ip aud d.claims.exp d.claims.bal c s) (ap minus_one counted)
            issued;
    }
