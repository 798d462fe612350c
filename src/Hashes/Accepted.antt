-- ===== src/Hashes/Accepted.antt =====
-- node-api-service/lib/endpoints/hashes.js: what a submission that is accepted has done.
use chainpoint_core_erc.Prelude.{
  ◌⊎◌, inl, inr, ◌≡◌, refl, ap, ◌∙◌, subst, Bool, true, false, some, List, ◌∷◌, map, ℕ,
  if◌then◌else◌,
}
use chainpoint_core_erc.Exec.{ok, Exec, gets, ◌>>=◌}
use chainpoint_core_erc.Utils.{lower, format_date_iso8601_no_ms}
use chainpoint_core_erc.UsageToken.State.{ApiWorld}
use chainpoint_core_erc.UsageToken.Replies.{Reply, sent, internal_server, ensure}
use chainpoint_core_erc.UsageToken.TokenUtils.{TokenEnv}
use chainpoint_core_erc.UsageToken.Inversion.{
  GivesToken, gives, ensure-GivesToken, ensure_some-GivesToken,
}
use chainpoint_core_erc.Hashes.Response.{
  HashEnv, HashResponse, generate_processing_hints, generate_post_hash_response,
}
use chainpoint_core_erc.Hashes.{
  HashParam, absent, not_text, hash_text, HashRequest, is_valid_hash, text_of, with_node,
  submit_hash, post_hash,
}
use chainpoint_core_erc.Hashes.Frame.{same_published}
use chainpoint_core_erc.Hashes.Inversion.{
  HasToken, hash_obj, Continues, submit_hash-GivesToken, with_node-GivesToken,
}

-- `w'` is the state after the answer `res` to `req` in `w`.
pub record IsAccepted (env : TokenEnv) (henv : HashEnv) (req : HashRequest) (w : ApiWorld)
    (res : HashResponse) (w' : ApiWorld) : Type 0 where
  pub hash : List ℕ
  pub given : req.hash ≡ hash_text hash
  pub valid : is_valid_hash hash ≡ true
  pub is_open : w.channel ≡ true
  pub echoed : res.hash ≡ map lower hash
  pub submitted_at : res.submitted_at ≡ format_date_iso8601_no_ms w.clock
  pub hints : res.processing_hints ≡ generate_processing_hints henv.hour_shift w.clock
  pub published : w'.published ≡ hash_obj res ∷ w.published
  pub token : (henv.private_network ≡ true) ⊎ HasToken env req.request w

record Answers (henv : HashEnv) (hash : List ℕ) (clock : ℕ) (res : HashResponse) : Type 0 where
  echoed : res.hash ≡ map lower hash
  submitted_at : res.submitted_at ≡ format_date_iso8601_no_ms clock
  hints : res.processing_hints ≡ generate_processing_hints henv.hour_shift clock

generate-Answers :
    (henv : HashEnv) (hash : List ℕ) (w : ApiWorld) (res : HashResponse)
    → (generate_post_hash_response henv hash w).0 ≡ ok res
    → Answers henv hash w.clock res
unfolding generate_post_hash_response
generate-Answers henv hash w res h = record { echoed = cc h; submitted_at = cc h; hints = cc h }

text_of-eq : (p : HashParam) (hash : List ℕ) → text_of p ≡ some hash → p ≡ hash_text hash
text_of-eq absent hash h = absurd (cc h)
text_of-eq not_text hash h = absurd (cc h)
text_of-eq (hash_text x) hash h = cc h

module _ {s : HashResponse × ApiWorld} (env : TokenEnv) (henv : HashEnv) (req : HashRequest)
    (w : ApiWorld) where
  channel-GivesToken :
      (m : Exec ApiWorld (Reply HashResponse))
      → GivesToken s (do channel ← gets (λ w. w.channel); ensure channel internal_server m) w
      → (w.channel ≡ true) × GivesToken s m w
  unfolding gets ◌>>=◌
  channel-GivesToken m h = ensure-GivesToken w w.channel internal_server m refl h

  submitted-from :
      (hash : List ℕ)
      → Continues s (submit_hash henv hash) w
      → (s.1.published ≡ hash_obj s.0 ∷ w.published) × Answers henv hash w.clock s.0
  submitted-from hash (v, same, k) =
      let (published, e) = submit_hash-GivesToken henv v hash k in
      (
        published ∙ ap (λ x. hash_obj s.0 ∷ x) same.published,
        subst (λ c. Answers henv hash c s.0) same.clock (generate-Answers henv hash v s.0 e),
      )

  submitted :
      (private_network : Bool) (hash : List ℕ)
      → GivesToken s
          (if private_network
            then submit_hash henv hash
            else with_node env req.request (submit_hash henv hash))
          w
      → (s.1.published ≡ hash_obj s.0 ∷ w.published)
        × Answers henv hash w.clock s.0
        × ((private_network ≡ true) ⊎ HasToken env req.request w)
  submitted true hash h =
      let (p, a) = submitted-from hash (w, same_published.rel_refl w, h) in (p, a, inl refl)
  submitted false hash h =
      let (t, k) = with_node-GivesToken env req.request (submit_hash henv hash) w h in
      let (p, a) = submitted-from hash k in (p, a, inr t)

-- Whatever the outcomes of the calls, a submission that is answered with a response carried a valid
-- hash while the channel was open, and has handed exactly one object to the aggregator, with the
-- response's id and the hash in lower case, which the response echoes with the time and its hints; on a
-- public network it moreover carried a token of the submitting Node that is verified, unexpired and
-- addressed to this Core.
pub post_hash-IsAccepted :
    (env : TokenEnv) (henv : HashEnv) (req : HashRequest) (w : ApiWorld) (res : HashResponse)
    → (post_hash env henv req w).0 ≡ ok (sent res)
    → IsAccepted env henv req w res (post_hash env henv req w).1
unfolding post_hash
post_hash-IsAccepted env henv req w res h =
    let g = gives (post_hash env henv req) w h in
    let (_, k) = ensure-GivesToken w req.is_json _ _ refl g in
    let (hash, given, k1) = ensure_some-GivesToken w (text_of req.hash) _ _ refl k in
    let (valid, k2) = ensure-GivesToken w (is_valid_hash hash) _ _ refl k1 in
    let (is_open, k3) = channel-GivesToken env henv req w _ k2 in
    let (published, a, token) = submitted env henv req w henv.private_network hash k3 in
    record {
      hash = hash;
      given = text_of-eq req.hash hash given;
      valid = valid;
      is_open = is_open;
      echoed = a.echoed;
      submitted_at = a.submitted_at;
      hints = a.hints;
      published = published;
      token = token;
    }
