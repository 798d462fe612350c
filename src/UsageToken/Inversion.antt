-- ===== src/UsageToken/Inversion.antt =====
-- A handler that has answered with a token has passed each of its checks.
use chainpoint_core_erc.Utils.{get_client_ip}
use chainpoint_core_erc.Prelude.{
  ◌≡◌, refl, ap, sym, subst, ◌∙◌, Bool, true, false, Option, none, some, String, List, ◌==◌, eq_iff,
  arith,
}
use chainpoint_core_erc.Exec.{ok, Exec, pure, try_catch, ◌>>=◌}
use chainpoint_core_erc.Exec.Keeps.{Keeps, keeps_rules, >>=-eq-ok}
use chainpoint_core_erc.UsageToken.State.{Decoded, ApiWorld}
use chainpoint_core_erc.UsageToken.TokenUtils.{
  TokenEnv, verify_sig, get_active_token_by_node_ip, find_active,
}
use chainpoint_core_erc.UsageToken.Calls.{query}
use chainpoint_core_erc.UsageToken.Frame.{SameTokens, same_tokens, tokens_silent}
use chainpoint_core_erc.UsageToken.Silent.{get_active_token_by_node_ip-Keeps}
use chainpoint_core_erc.UsageToken.Checks.{
  TokenRequest, is_valid_aud, with_aud, with_token, with_subject, is_active, ensure_active,
}
use chainpoint_core_erc.UsageToken.Replies.{
  Reply, sent, invalid_argument, bad_request, unauthorized, too_many_requests, not_found,
  internal_server, ensure, ensure_some,
}

-- `m` sends the first of the pair, and ends in the second.
abbrev pub GivesToken : {R : Type 0} → R × ApiWorld → Exec ApiWorld (Reply R) → ApiWorld → Type 0
GivesToken s m w = m w ≡ (ok (sent s.0), s.1)

pub gives :
    {R : Type 0} {s : R} (m : Exec ApiWorld (Reply R)) (w : ApiWorld)
    → (m w).0 ≡ ok (sent s)
    → GivesToken (s, (m w).1) m w
gives m w h = ap (λ r. (r, (m w).1)) h

pub >>=-GivesToken :
    {R A : Type 0} {s : R × ApiWorld} (m : Exec ApiWorld A) (f : A → Exec ApiWorld (Reply R))
    (w : ApiWorld)
    → GivesToken s (m >>= f) w
    → (a : A) × ((m w).0 ≡ ok a) × GivesToken s (f a) (m w).1
>>=-GivesToken m f w h = let (a, e, q, _) = >>=-eq-ok m f w (ap (λ p. p.0) h) in (a, e, sym q ∙ h)

abbrev pub is_refusal : {R : Type 0} → Reply R → Bool
is_refusal (sent s) = false
is_refusal r = true

abbrev read_active : String → Exec ApiWorld (Option (Option String))
read_active ip = try_catch (do r ← get_active_token_by_node_ip ip; pure (some r)) (λ _. pure none)

read_active-Keeps : (ip : String) → Keeps same_tokens (read_active ip)
read_active-Keeps ip = search (keeps_rules, get_active_token_by_node_ip-Keeps tokens_silent)

read_active-found :
    (ip : String) (w : ApiWorld) (r : Option String)
    → (read_active ip w).0 ≡ ok (some r)
    → find_active ip w.active_tokens ≡ r
unfolding get_active_token_by_node_ip query try_catch ◌>>=◌ pure
read_active-found ip w r h = ground arith

is_active-eq :
    (env : TokenEnv) (t : String) (r : Option String)
    → is_active env t r ≡ true
    → r ≡ some (env.sha256 t)
is_active-eq env t none h = absurd (cc h)
is_active-eq env t (some a) h = ap some ((eq_iff a (env.sha256 t)).0 h)

module _ {R : Type 0} {s : R × ApiWorld} (w : ApiWorld) where
  pub ensure-GivesToken :
      (b : Bool) (r : Reply R) (m : Exec ApiWorld (Reply R))
      → is_refusal r ≡ true
      → GivesToken s (ensure b r m) w
      → (b ≡ true) × GivesToken s m w
  unfolding ensure pure
  ensure-GivesToken true r m p h = (refl, h)
  ensure-GivesToken false (sent t) m p h = absurd (cc p)
  ensure-GivesToken false invalid_argument m p h = absurd (cc h)
  ensure-GivesToken false bad_request m p h = absurd (cc h)
  ensure-GivesToken false unauthorized m p h = absurd (cc h)
  ensure-GivesToken false too_many_requests m p h = absurd (cc h)
  ensure-GivesToken false not_found m p h = absurd (cc h)
  ensure-GivesToken false internal_server m p h = absurd (cc h)

  pub ensure_some-GivesToken :
      {A : Type 0} (o : Option A) (r : Reply R) (f : A → Exec ApiWorld (Reply R))
      → is_refusal r ≡ true
      → GivesToken s (ensure_some o r f) w
      → (a : A) × (o ≡ some a) × GivesToken s (f a) w
  unfolding ensure_some pure
  ensure_some-GivesToken (some a) r f p h = (a, refl, h)
  ensure_some-GivesToken none (sent t) f p h = absurd (cc p)
  ensure_some-GivesToken none invalid_argument f p h = absurd (cc h)
  ensure_some-GivesToken none bad_request f p h = absurd (cc h)
  ensure_some-GivesToken none unauthorized f p h = absurd (cc h)
  ensure_some-GivesToken none too_many_requests f p h = absurd (cc h)
  ensure_some-GivesToken none not_found f p h = absurd (cc h)
  ensure_some-GivesToken none internal_server f p h = absurd (cc h)

module _ {R : Type 0} {s : R × ApiWorld} (w : ApiWorld) where
  pub with_aud-GivesToken :
      (env : TokenEnv) (req : TokenRequest) (f : List String → Exec ApiWorld (Reply R))
      → GivesToken s (with_aud env req f) w
      → (ips : List String) × (req.aud ≡ some ips)
        × (is_valid_aud env ips ≡ true)
        × GivesToken s (f ips) w
  unfolding with_aud
  with_aud-GivesToken env req f h =
      let (ips, e, k) = ensure_some-GivesToken w req.aud _ _ refl h in
      let (v, k') = ensure-GivesToken w (is_valid_aud env ips) _ (f ips) refl k in (ips, e, v, k')

  pub with_subject-GivesToken :
      (req : TokenRequest) (d : Decoded) (f : String → Exec ApiWorld (Reply R))
      → GivesToken s (with_subject req d f) w
      → (ip : String) × (get_client_ip req.addresses ≡ some ip)
        × (d.claims.sub ≡ some ip)
        × GivesToken s (f ip) w
  unfolding with_subject
  with_subject-GivesToken req d f h =
      let (ip, e, k) = ensure_some-GivesToken w (get_client_ip req.addresses) _ _ refl h in
      let (sub, e', k') = ensure_some-GivesToken w d.claims.sub _ _ refl k in
      let (v, k'') = ensure-GivesToken w (sub == ip) _ (f ip) refl k' in
      (ip, e, subst (λ x. d.claims.sub ≡ some x) ((eq_iff sub ip).0 v) e', k'')

  verified-GivesToken :
      (env : TokenEnv) (t : String) (d : Decoded) (m : Exec ApiWorld (Reply R))
      → GivesToken s (do verified ← verify_sig env t d; ensure verified invalid_argument m) w
      → ((verify_sig env t d w).0 ≡ ok true) × GivesToken s m (verify_sig env t d w).1
  verified-GivesToken env t d m h =
      let (b, v, k) = >>=-GivesToken (verify_sig env t d) _ w h in
      let (p, k') = ensure-GivesToken (verify_sig env t d w).1 b _ m refl k in (v ∙ ap ok p, k')

  pub with_token-GivesToken :
      (env : TokenEnv) (req : TokenRequest) (f : String → Decoded → Exec ApiWorld (Reply R))
      → GivesToken s (with_token env req f) w
      → (t : String) × (d : Decoded) × (req.token_string ≡ some t)
        × (env.decode t ≡ some d)
        × ((verify_sig env t d w).0 ≡ ok true)
        × GivesToken s (f t d) (verify_sig env t d w).1
  unfolding with_token
  with_token-GivesToken env req f h =
      let (t, e, k) = ensure_some-GivesToken w req.token_string _ _ refl h in
      let (d, e', k') = ensure_some-GivesToken w (env.decode t) _ _ refl k in
      let (v, k'') = verified-GivesToken env t d (f t d) k' in (t, d, e, e', v, k'')

  pub ensure_active-GivesToken :
      (env : TokenEnv) (ip t : String) (m : Exec ApiWorld (Reply R))
      → GivesToken s (ensure_active env ip t m) w
      → (v : ApiWorld) × SameTokens w v
        × (find_active ip w.active_tokens ≡ some (env.sha256 t))
        × GivesToken s m v
  unfolding ensure_active
  ensure_active-GivesToken env ip t m h =
      let (row, e, k) = >>=-GivesToken (read_active ip) _ w h in
      let (r, e', k') = ensure_some-GivesToken (read_active ip w).1 row _ _ refl k in
      let (p, k'') = ensure-GivesToken (read_active ip w).1 (is_active env t r) _ m refl k' in
      (
        (read_active ip w).1,
        (read_active-Keeps ip).at w,
        read_active-found ip w r (e ∙ ap ok e') ∙ is_active-eq env t r p,
        k'',
      )
