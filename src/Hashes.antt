-- ===== src/Hashes.antt =====
-- node-api-service/lib/endpoints/hashes.js: a hash is submitted. A Core that does not run in private mode
-- asks for a token, whose first use here makes it the Node's active one.
pub mod Response
pub mod Frame
pub mod Inversion
pub mod Accepted
pub mod Hints
pub mod Activated
pub mod Retired
use chainpoint_core_erc.Prelude.{
  ℕ, Bool, true, false, not, Option, none, some, String, List, [], ◌∷◌, ◌&&◌, leb, eqb,
  if◌then◌else◌,
}
use chainpoint_core_erc.Prelude.Lists.{length, includes}
use chainpoint_core_erc.Exec.{
  publish_error, type_error, Exec, pure, throw, gets, try_catch, ◌>>=◌, ◌>>◌,
}
use chainpoint_core_erc.Utils.{all_hex, has_even_length}
use chainpoint_core_erc.UsageToken.State.{Claims, HashObj, ApiWorld, ActiveToken}
use chainpoint_core_erc.UsageToken.Calls.{execute}
use chainpoint_core_erc.UsageToken.Replies.{
  Reply, sent, invalid_argument, unauthorized, internal_server, ensure, ensure_some,
}
use chainpoint_core_erc.UsageToken.TokenUtils.{
  TokenEnv, is_token_hash_cached, remove_from_token_hash_cache, get_cached_core_id,
  broadcast_core_tx, write_active_token,
}
use chainpoint_core_erc.UsageToken.Checks.{
  TokenRequest, all_ip, with_token, with_subject, is_usable_exp, is_unexpired,
}
use chainpoint_core_erc.Hashes.Response.{HashEnv, HashResponse, generate_post_hash_response}

-- `req.params.hash`
pub data HashParam : Type 0 where
  absent not_text : HashParam
  hash_text : List ℕ → HashParam

pub record HashRequest : Type 0 where
  pub is_json : Bool
  pub hash : HashParam
  pub request : TokenRequest

-- `/^([a-fA-F0-9]{2}){20,64}$/`
unfoldable pub is_valid_hash : List ℕ → Bool
is_valid_hash h = all_hex h && has_even_length h && leb 40 (length h) && leb (length h) 128

abbrev pub text_of : HashParam → Option (List ℕ)
text_of absent = none
text_of not_text = none
text_of (hash_text h) = some h

-- the token's audience: three IPs, one of them this Core's
unfoldable pub is_token_aud : TokenEnv → List String → Bool
is_token_aud env ips = eqb (length ips) 3 && all_ip ips && includes env.core_ip ips

unfoldable pub try_write : String → String → Exec ApiWorld Bool
try_write ip token_hash =
    try_catch (write_active_token (record { node_ip = ip; token_hash = token_hash }))
      (λ _. pure false)

unfoldable pub try_broadcast : TokenEnv → String → String → Exec ApiWorld Bool
try_broadcast env ip token_hash =
    try_catch
      (do core_id ← get_cached_core_id env; broadcast_core_tx core_id ip token_hash; pure true)
      (λ _. pure false)

module _ {R : Type 0} (env : TokenEnv) where
  -- The token awaits its first use: it becomes the active one, here and on the network.
  unfoldable pub activate_cached :
      String → String → Exec ApiWorld (Reply R) → Exec ApiWorld (Reply R)
  activate_cached ip token_hash next = do
    written ← try_write ip token_hash
    ensure written internal_server (do
      announced ← try_broadcast env ip token_hash
      ensure announced internal_server (do remove_from_token_hash_cache token_hash; next))

  -- the confirmation step
  unfoldable pub confirm_token : String → String → Exec ApiWorld (Reply R) → Exec ApiWorld (Reply R)
  confirm_token ip token_hash next = do
    cached ← is_token_hash_cached token_hash
    if cached then activate_cached ip token_hash next else next

  unfoldable pub with_node : TokenRequest → Exec ApiWorld (Reply R) → Exec ApiWorld (Reply R)
  with_node req next = with_token env req (λ t d. with_subject req d (λ ip.
      ensure (is_usable_exp d.claims.exp) invalid_argument (do
        clock ← gets (λ w. w.clock)
        ensure (is_unexpired d.claims.exp clock) unauthorized (
            ensure_some d.claims.aud invalid_argument (λ ips.
              ensure (is_token_aud env ips) invalid_argument
                (confirm_token ip (env.sha256 t) next))))))

-- `amqpChannel.sendToQueue`
unfoldable pub publish_hash : HashObj → Exec ApiWorld Bool
publish_hash obj =
    try_catch
      (do
        channel ← gets (λ w. w.channel)
        if channel
            then execute publish_error (λ w. record w { published = obj ∷ w.published })
            else throw type_error
        pure true)
      (λ _. pure false)

unfoldable pub submit_hash : HashEnv → List ℕ → Exec ApiWorld (Reply HashResponse)
submit_hash henv hash = do
  response ← generate_post_hash_response henv hash
  published ← publish_hash (record { hash_id = response.hash_id; hash = response.hash })
  ensure published internal_server (pure (sent response))

unfoldable pub post_hash : TokenEnv → HashEnv → HashRequest → Exec ApiWorld (Reply HashResponse)
post_hash env henv req = ensure req.is_json invalid_argument (
    ensure_some (text_of req.hash) invalid_argument (λ hash.
      ensure (is_valid_hash hash) invalid_argument (do
        channel ← gets (λ w. w.channel)
        ensure channel internal_server (
            if henv.private_network
            then submit_hash henv hash
            else with_node env req.request (submit_hash henv hash)))))
