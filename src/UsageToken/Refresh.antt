-- ===== src/UsageToken/Refresh.antt =====
-- usage-token.js: what a token that a refresh gives says, and what it took to get it.
use chainpoint_core_erc.Utils.{get_client_ip}
use chainpoint_core_erc.Prelude.{
  ◌≡◌, refl, subst, ◌∙◌, ◌+◌, ◌*◌, ◌/◌, Bool, true, false, not, some, String, List,
}
use chainpoint_core_erc.Exec.{ok, Exec, gets, pure, ◌>>=◌}
use chainpoint_core_erc.UsageToken.State.{Claim, number, Decoded, Claims, Payload, ApiWorld}
use chainpoint_core_erc.UsageToken.TokenUtils.{
  TokenEnv, now_seconds, verify_sig, find_active, add_to_token_hash_cache,
}
use chainpoint_core_erc.UsageToken.Checks.{
  TokenRequest, is_valid_aud, with_aud, with_token, with_subject, less_than_one, minus_one,
  later_of, ensure_active,
}
use chainpoint_core_erc.UsageToken.Replies.{
  Reply, sent, invalid_argument, internal_server, ensure, ensure_some,
}
use chainpoint_core_erc.UsageToken.{
  next_uuid, construct_token_payload, refresh_token, post_token_refresh,
}
use chainpoint_core_erc.UsageToken.Frame.{SameTokens, verify_sig-SameTokens}
use chainpoint_core_erc.UsageToken.Inversion.{
  gives, >>=-GivesToken, GivesToken, ensure-GivesToken, ensure_some-GivesToken, with_aud-GivesToken,
  with_subject-GivesToken, with_token-GivesToken, ensure_active-GivesToken,
}

-- The token `s` is a signed payload of this Core, for the Node and the audience, with these claims.
pub record IsIssued (env : TokenEnv) (ip : String) (aud : List String) (exp bal aulr : Claim)
    (s : String) : Type 0 where
  pub payload : Payload
  pub signed : env.sign payload ≡ some s
  pub iss : payload.iss ≡ env.base_uri
  pub sub : payload.sub ≡ ip
  pub aud_eq : payload.aud ≡ aud
  pub exp_eq : payload.exp ≡ exp
  pub bal_eq : payload.bal ≡ bal
  pub aulr_eq : payload.aulr ≡ aulr

-- Who asked: a request for a valid audience, with a token that decodes to `d`, is verified, and has the
-- client's address as its subject.
pub record IsVerified (env : TokenEnv) (req : TokenRequest) (w : ApiWorld) (aud : List String)
    (t : String) (d : Decoded) (ip : String) : Type 0 where
  pub aud_given : req.aud ≡ some aud
  pub aud_valid : is_valid_aud env aud ≡ true
  pub token_given : req.token_string ≡ some t
  pub token_decoded : env.decode t ≡ some d
  pub token_verified : (verify_sig env t d w).0 ≡ ok true
  pub client : get_client_ip req.addresses ≡ some ip
  pub subject : d.claims.sub ≡ some ip

abbrev pub with_verified :
    TokenEnv
    → TokenRequest
    → (List String → String → Decoded → String → Exec ApiWorld (Reply String))
    → Exec ApiWorld (Reply String)
with_verified env req f =
    with_aud env req (λ aud. with_token env req (λ t d. with_subject req d (λ ip. f aud t d ip)))

module _ {s : String × ApiWorld} (env : TokenEnv) (req : TokenRequest) where
  pub with_verified-GivesToken :
      (f : List String → String → Decoded → String → Exec ApiWorld (Reply String)) (w : ApiWorld)
      → GivesToken s (with_verified env req f) w
      → (aud : List String) × (t : String) × (d : Decoded) × (ip : String) × (v : ApiWorld)
        × IsVerified env req w aud t d ip
        × SameTokens w v
        × GivesToken s (f aud t d ip) v
  with_verified-GivesToken f w h =
      let (aud, e, a, k) = with_aud-GivesToken w env req _ h in
      let (t, d, e', e'', v, k') = with_token-GivesToken w env req _ k in
      let (ip, c, sub, k'') = with_subject-GivesToken (verify_sig env t d w).1 req d _ k' in
      (
        aud,
        t,
        d,
        ip,
        (verify_sig env t d w).1,
        record {
          aud_given = e;
          aud_valid = a;
          token_given = e';
          token_decoded = e'';
          token_verified = v;
          client = c;
          subject = sub;
        },
        (verify_sig-SameTokens env t d).at w,
        k'',
      )

module _ {s : String × ApiWorld} (env : TokenEnv) (ip : String) (aud : List String) where
  pub issue-GivesToken :
      (exp bal aulr : Claim) (f : String → Exec ApiWorld (Reply String)) (w : ApiWorld)
      → GivesToken s
          (do
            payload ← construct_token_payload env ip exp bal aud aulr
            ensure_some (env.sign payload) internal_server f)
          w
      → (t : String) × IsIssued env ip aud exp bal aulr t × (v : ApiWorld) × GivesToken s (f t) v
  unfolding construct_token_payload next_uuid pure ◌>>=◌
  issue-GivesToken exp bal aulr f w h =
      let p : Payload = record {
        jti = env.uuid w.uuids;
        iss = env.base_uri;
        sub = ip;
        exp = exp;
        bal = bal;
        aud = aud;
        aulr = aulr;
      } in
      let v = record w { uuids = w.uuids + 1 } in
      let (t, e, k) = ensure_some-GivesToken v (env.sign p) internal_server f refl h in
      (
        t,
        record {
          payload = p;
          signed = e;
          iss = refl;
          sub = refl;
          aud_eq = refl;
          exp_eq = refl;
          bal_eq = refl;
          aulr_eq = refl;
        },
        v,
        k,
      )

  cached-GivesToken :
      (t : String) (w : ApiWorld)
      → GivesToken s
          (do
            cached ← add_to_token_hash_cache (env.sha256 t)
            ensure cached internal_server (pure (sent t)))
          w
      → t ≡ s.0
  unfolding pure
  cached-GivesToken t w h =
      let (b, _, k) = >>=-GivesToken (add_to_token_hash_cache (env.sha256 t)) _ w h in
      let (p, k') = ensure-GivesToken _ b _ _ refl k in cc k'

  pub refresh_token-GivesToken :
      (claims : Claims) (w : ApiWorld)
      → GivesToken s (refresh_token env ip aud claims) w
      → IsIssued env ip aud
          (number (later_of claims.exp (now_seconds w) + 60 * 60))
          (minus_one claims.bal)
          (number 3)
          s.0
  unfolding refresh_token gets ◌>>=◌
  refresh_token-GivesToken claims w h =
      let (t, issued, v, k) = issue-GivesToken _ _ _ _ w h in
      subst (IsIssued env ip aud _ _ _) (cached-GivesToken t v k) issued

pub not-true : (b : Bool) → not b ≡ true → b ≡ false
not-true true h = absurd (cc h)
not-true false h = refl

-- What a refresh promises for the token `s` that it gives.
pub record IsRefresh (env : TokenEnv) (req : TokenRequest) (w : ApiWorld) (s : String)
    : Type 0 where
  pub aud : List String
  pub given_token : String
  pub decoded : Decoded
  pub ip : String
  pub verified : IsVerified env req w aud given_token decoded ip
  pub active : find_active ip w.active_tokens ≡ some (env.sha256 given_token)
  pub has_balance : less_than_one decoded.claims.bal ≡ false
  pub issued :
      IsIssued env ip aud
        (number (later_of decoded.claims.exp (now_seconds w) + 60 * 60))
        (minus_one decoded.claims.bal)
        (number 3)
        s

refresh_rest-GivesToken :
    {s : String × ApiWorld} (env : TokenEnv) (aud : List String) (t : String) (d : Decoded)
    (ip : String) (w v : ApiWorld)
    → SameTokens w v
    → GivesToken s
        (ensure
          (not (less_than_one d.claims.bal))
          invalid_argument
          (ensure_active env ip t (refresh_token env ip aud d.claims)))
        v
    → (find_active ip w.active_tokens ≡ some (env.sha256 t))
      × (less_than_one d.claims.bal ≡ false)
      × IsIssued env ip aud
          (number (later_of d.claims.exp (now_seconds w) + 60 * 60))
          (minus_one d.claims.bal)
          (number 3)
          s.0
refresh_rest-GivesToken {s} env aud t d ip w v same h =
    let (b, k) = ensure-GivesToken v _ invalid_argument _ refl h in
    let (u, same', a, k') = ensure_active-GivesToken v env ip t _ k in
    (
      subst (λ ts. find_active ip ts ≡ some (env.sha256 t)) same.active_tokens a,
      not-true (less_than_one d.claims.bal) b,
      subst
          (λ c.
            IsIssued env ip aud (number (later_of d.claims.exp ((c + 999) / 1000) + 60 * 60))
              (minus_one d.claims.bal) (number 3) s.0)
          (same'.clock ∙ same.clock) (refresh_token-GivesToken env ip aud d.claims u k'),
    )

-- Whatever the outcomes of the calls, a token that a refresh gives was asked for with the Node's
-- active token, verified, whose balance is not below one; it is for that Node and the audience that was asked for,
-- expires an hour after the later of now and the old expiration, has a balance less by one and
-- three audience updates.
pub post_token_refresh_charges :
    (env : TokenEnv) (req : TokenRequest) (w : ApiWorld) (s : String)
    → (post_token_refresh env req w).0 ≡ ok (sent s)
    → IsRefresh env req w s
unfolding post_token_refresh
post_token_refresh_charges env req w s h =
    let (aud, t, d, ip, v, verified, same, k) =
      with_verified-GivesToken env req _ w (gives (post_token_refresh env req) w h) in
    let (a, b, issued) = refresh_rest-GivesToken env aud t d ip w v same k in
    record {
      aud = aud;
      given_token = t;
      decoded = d;
      ip = ip;
      verified = verified;
      active = a;
      has_balance = b;
      issued = issued;
    }
