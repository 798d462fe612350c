-- ===== src/Hashes/Inversion.antt =====
-- node-api-service/lib/endpoints/hashes.js: a submission that is accepted has passed each of its checks.
use chainpoint_core_erc.Prelude.{
  ◌≡◌, refl, ap, sym, subst, ◌∙◌, Bool, true, false, some, String, List, ◌∷◌, ℕ, if◌then◌else◌,
  arith,
}
use chainpoint_core_erc.Exec.{ok, Exec, pure, gets, try_catch, throw, ◌>>=◌}
use chainpoint_core_erc.Utils.{get_client_ip}
use chainpoint_core_erc.UsageToken.State.{Decoded, HashObj, ApiWorld}
use chainpoint_core_erc.UsageToken.Calls.{execute}
use chainpoint_core_erc.UsageToken.Replies.{Reply, sent, unauthorized, ensure}
use chainpoint_core_erc.UsageToken.TokenUtils.{
  TokenEnv, verify_sig, is_token_hash_cached, remove_from_token_hash_cache,
}
use chainpoint_core_erc.UsageToken.Checks.{TokenRequest, is_usable_exp, is_unexpired}
use chainpoint_core_erc.UsageToken.Silent.{
  verify_sig-Keeps, is_token_hash_cached-Keeps, remove_from_token_hash_cache-Keeps,
}
use chainpoint_core_erc.UsageToken.Inversion.{
  GivesToken, >>=-GivesToken, ensure-GivesToken, ensure_some-GivesToken, with_token-GivesToken,
  with_subject-GivesToken,
}
use chainpoint_core_erc.Hashes.Response.{HashEnv, HashResponse, generate_post_hash_response}
use chainpoint_core_erc.Hashes.{
  is_token_aud, try_write, try_broadcast, activate_cached, confirm_token, with_node, publish_hash,
  submit_hash,
}
use chainpoint_core_erc.Hashes.Frame.{
  SamePublished, same_published, published_silent, try_write-SamePublished,
  try_broadcast-SamePublished,
}

-- The token that the request gives is a Node's, and good for this Core.
pub record HasToken (env : TokenEnv) (req : TokenRequest) (w : ApiWorld) : Type 0 where
  pub token : String
  pub decoded : Decoded
  pub ip : String
  pub ips : List String
  pub given : req.token_string ≡ some token
  pub decodes : env.decode token ≡ some decoded
  pub verified : (verify_sig env token decoded w).0 ≡ ok true
  pub client : get_client_ip req.addresses ≡ some ip
  pub subject : decoded.claims.sub ≡ some ip
  pub has_exp : is_usable_exp decoded.claims.exp ≡ true
  pub unexpired : is_unexpired decoded.claims.exp w.clock ≡ true
  pub audience : decoded.claims.aud ≡ some ips
  pub for_core : is_token_aud env ips ≡ true

publish_hash-eq :
    (obj : HashObj) (w : ApiWorld)
    → (publish_hash obj w).0 ≡ ok true
    → (publish_hash obj w).1.published ≡ obj ∷ w.published
unfolding publish_hash try_catch gets throw pure execute ◌>>=◌
publish_hash-eq obj w h = ground arith

-- What a submission that is accepted adds to the queue.
abbrev pub hash_obj : HashResponse → HashObj
hash_obj res = record { hash_id = res.hash_id; hash = res.hash }

generate-published :
    (henv : HashEnv) (hash : List ℕ) (w : ApiWorld)
    → (generate_post_hash_response henv hash w).1.published ≡ w.published
unfolding generate_post_hash_response
generate-published henv hash w = refl

module _ {s : HashResponse × ApiWorld} (henv : HashEnv) (w : ApiWorld) where
  pure-GivesToken :
      (res : HashResponse) (u : ApiWorld)
      → GivesToken s (pure (sent res)) u
      → (res ≡ s.0) × (u ≡ s.1)
  unfolding pure
  pure-GivesToken res u h = (cc (ap (λ p. p.0) h), ap (λ p. p.1) h)

  pub submit_hash-GivesToken :
      (hash : List ℕ)
      → GivesToken s (submit_hash henv hash) w
      → (s.1.published ≡ hash_obj s.0 ∷ w.published)
        × ((generate_post_hash_response henv hash w).0 ≡ ok s.0)
  unfolding submit_hash
  submit_hash-GivesToken hash h =
      let (res, e, k) = >>=-GivesToken (generate_post_hash_response henv hash) _ w h in
      let v = (generate_post_hash_response henv hash w).1 in
      let (b, e', k') = >>=-GivesToken (publish_hash (hash_obj res)) _ v k in
      let u = (publish_hash (hash_obj res) v).1 in
      let (p, k'') = ensure-GivesToken u b _ _ refl k' in
      let (e1, e2) = pure-GivesToken res u k'' in
      (
        ap (λ x. x.published) (sym e2)
            ∙ publish_hash-eq (hash_obj res) v (e' ∙ ap ok p)
            ∙ ap (λ x. hash_obj res ∷ x) (generate-published henv hash w)
            ∙ ap (λ x. hash_obj x ∷ w.published) e1,
        e ∙ ap ok e1,
      )

-- The rest of the handler has run from a state with the same queue.
abbrev pub Continues : {R : Type 0} → R × ApiWorld → Exec ApiWorld (Reply R) → ApiWorld → Type 0
Continues s next w = (v : ApiWorld) × SamePublished w v × GivesToken s next v

module _ {R : Type 0} {s : R × ApiWorld} (env : TokenEnv) where
  activate_cached-GivesToken :
      (ip t : String) (next : Exec ApiWorld (Reply R)) (w : ApiWorld)
      → GivesToken s (activate_cached env ip t next) w
      → Continues s next w
  unfolding activate_cached
  activate_cached-GivesToken ip t next w h =
      let (written, _, k) = >>=-GivesToken (try_write ip t) _ w h in
      let v = (try_write ip t w).1 in
      let (_, k1) = ensure-GivesToken v written _ _ refl k in
      let (announced, _, k2) = >>=-GivesToken (try_broadcast env ip t) _ v k1 in
      let u = (try_broadcast env ip t v).1 in
      let (_, k3) = ensure-GivesToken u announced _ _ refl k2 in
      let (_, _, k4) = >>=-GivesToken (remove_from_token_hash_cache t) _ u k3 in
      (
        (remove_from_token_hash_cache t u).1,
        same_published.rel_trans w v _ ((try_write-SamePublished ip t).at w) (
            same_published.rel_trans v u _ ((try_broadcast-SamePublished env ip t).at v)
              ((remove_from_token_hash_cache-Keeps published_silent t).at u)),
        k4,
      )

  confirm_token-GivesToken :
      (ip t : String) (next : Exec ApiWorld (Reply R)) (w : ApiWorld)
      → GivesToken s (confirm_token env ip t next) w
      → Continues s next w
  unfolding confirm_token
  confirm_token-GivesToken ip t next w h =
      let (cached, _, k) = >>=-GivesToken (is_token_hash_cached t) _ w h in
      let v = (is_token_hash_cached t w).1 in
      let (u, p, k') = if_continues cached v k in
      (
        u,
        same_published.rel_trans w v u ((is_token_hash_cached-Keeps published_silent t).at w) p,
        k',
      )
    where
      if_continues :
          (b : Bool) (v : ApiWorld)
          → GivesToken s (if b then activate_cached env ip t next else next) v
          → Continues s next v
      if_continues true v k = activate_cached-GivesToken ip t next v k
      if_continues false v k = (v, same_published.rel_refl v, k)

  unexpired-GivesToken :
      (d : Decoded) (m : Exec ApiWorld (Reply R)) (v : ApiWorld)
      → GivesToken s
          (do clock ← gets (λ w. w.clock); ensure (is_unexpired d.claims.exp clock) unauthorized m)
          v
      → (is_unexpired d.claims.exp v.clock ≡ true) × GivesToken s m v
  unfolding gets pure ◌>>=◌
  unexpired-GivesToken d m v h = ensure-GivesToken v _ unauthorized m refl h

  pub with_node-GivesToken :
      (req : TokenRequest) (next : Exec ApiWorld (Reply R)) (w : ApiWorld)
      → GivesToken s (with_node env req next) w
      → HasToken env req w × Continues s next w
  unfolding with_node
  with_node-GivesToken req next w h =
      let (t, d, given, decodes, verified, k) = with_token-GivesToken w env req _ h in
      let v = (verify_sig env t d w).1 in
      let same = (verify_sig-Keeps published_silent env t d).at w in
      let (ip, client, subject, k1) = with_subject-GivesToken v req d _ k in
      let (has_exp, k2) = ensure-GivesToken v _ _ _ refl k1 in
      let (unexpired, k3) = unexpired-GivesToken d _ v k2 in
      let (ips, audience, k4) = ensure_some-GivesToken v _ _ _ refl k3 in
      let (for_core, k5) = ensure-GivesToken v _ _ _ refl k4 in
      let (u, p, k6) = confirm_token-GivesToken ip (env.sha256 t) next v k5 in
      (
        record {
          token = t;
          decoded = d;
          ip = ip;
          ips = ips;
          given = given;
          decodes = decodes;
          verified = verified;
          client = client;
          subject = subject;
          has_exp = has_exp;
          unexpired = subst (λ c. is_unexpired d.claims.exp c ≡ true) same.clock unexpired;
          audience = audience;
          for_core = for_core;
        },
        (u, same_published.rel_trans w v u same p, k6),
      )
