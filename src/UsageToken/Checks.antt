-- ===== src/UsageToken/Checks.antt =====
-- The checks that the three handlers of node-api-service/lib/endpoints/usage-token.js share, each with what
-- follows it as its last argument; and `getClientIP` of node-lib/lib/utils.js.
use chainpoint_core_erc.Prelude.{
  ℕ, zero, suc, ◌*◌, Bool, true, false, not, Option, none, some, String, List, [], ◌∷◌, ◌==◌, ◌&&◌,
  ltb, eqb, if◌then◌else◌,
}
use chainpoint_core_erc.Prelude.Lists.{unique, length, includes}
use chainpoint_core_erc.Exec.{Exec, pure, try_catch, ◌>>=◌}
use chainpoint_core_erc.Utils.{Addresses, get_client_ip}
use chainpoint_core_erc.Utils.Ip.{is_ip}
use chainpoint_core_erc.UsageToken.State.{
  Claim, missing, null, text, number, negative, Decoded, ApiWorld,
}
use chainpoint_core_erc.UsageToken.Replies.{
  Reply, invalid_argument, bad_request, internal_server, ensure, ensure_some,
}
use chainpoint_core_erc.UsageToken.TokenUtils.{TokenEnv, verify_sig, get_active_token_by_node_ip}

-- `req`: the parameters, `none` if missing or empty, the audience by its parts between the commas;
-- and the three places where the client's address may stand.
pub record TokenRequest : Type 0 where
  pub aud : Option (List String)
  pub token_string : Option String
  pub raw_tx : Option String
  pub addresses : Addresses

abbrev pub all_ip : List String → Bool
all_ip [] = true
all_ip (ip ∷ ips) = is_ip ip && all_ip ips

-- three values, all different, all IPs, one of them this Core's
unfoldable pub is_valid_aud : TokenEnv → List String → Bool
is_valid_aud env ips =
    eqb (length ips) 3 && eqb (length (unique ips)) 3 && all_ip ips && includes env.core_ip ips

unfoldable pub with_aud :
    {R : Type 0}
    → TokenEnv
    → TokenRequest
    → (List String → Exec ApiWorld (Reply R))
    → Exec ApiWorld (Reply R)
with_aud env req next =
    ensure_some req.aud invalid_argument
      (λ ips. ensure (is_valid_aud env ips) invalid_argument (next ips))

-- decode the token, and verify its signature
unfoldable pub with_token :
    {R : Type 0}
    → TokenEnv
    → TokenRequest
    → (String → Decoded → Exec ApiWorld (Reply R))
    → Exec ApiWorld (Reply R)
with_token env req next = ensure_some req.token_string invalid_argument (λ t.
    ensure_some (env.decode t) invalid_argument
      (λ d. do verified ← verify_sig env t d; ensure verified invalid_argument (next t d)))

-- the Node's address, which must be the subject of the token
unfoldable pub with_subject :
    {R : Type 0}
    → TokenRequest
    → Decoded
    → (String → Exec ApiWorld (Reply R))
    → Exec ApiWorld (Reply R)
with_subject req d next = ensure_some (get_client_ip req.addresses) bad_request (λ ip.
    ensure_some d.claims.sub invalid_argument
      (λ sub. ensure (sub == ip) invalid_argument (next ip)))

abbrev pub is_active : TokenEnv → String → Option String → Bool
is_active env t none = false
is_active env t (some active_token_hash) = active_token_hash == env.sha256 t

-- the token must be the Node's active one
unfoldable pub ensure_active :
    {R : Type 0} → TokenEnv → String → String → Exec ApiWorld (Reply R) → Exec ApiWorld (Reply R)
ensure_active env ip t next = do
  row ← try_catch (do r ← get_active_token_by_node_ip ip; pure (some r)) (λ _. pure none)
  ensure_some row internal_server (λ r. ensure (is_active env t r) invalid_argument next)

-- JavaScript's `c < 1`: `null` counts as 0, and nothing compares with NaN.
abbrev pub less_than_one : Claim → Bool
less_than_one missing = false
less_than_one null = true
less_than_one text = false
less_than_one (number n) = ltb n 1
less_than_one (negative n) = true

-- `c - 1`, as the new token's JSON has it
abbrev pub minus_one : Claim → Claim
minus_one missing = null
minus_one null = negative 0
minus_one text = null
minus_one (number zero) = negative 0
minus_one (number (suc n)) = number n
minus_one (negative n) = negative (suc n)

-- `exp > nowSeconds ? exp : nowSeconds`
abbrev pub later_of : Claim → ℕ → ℕ
later_of (number n) now = if ltb now n then n else now
later_of missing now = now
later_of null now = now
later_of text now = now
later_of (negative n) now = now

-- Whether `!exp || isNaN(exp)`: a missing, null or zero expiration is refused, and so is a text.
abbrev pub is_usable_exp : Claim → Bool
is_usable_exp (number n) = ltb 0 n
is_usable_exp (negative n) = true
is_usable_exp missing = false
is_usable_exp null = false
is_usable_exp text = false

-- Whether `exp * 1000 < Date.now()` does not hold.
abbrev pub is_unexpired : Claim → ℕ → Bool
is_unexpired (number n) clock = not (ltb (n * 1000) clock)
is_unexpired (negative n) clock = false
is_unexpired missing clock = true
is_unexpired null clock = not (ltb 0 clock)
is_unexpired text clock = true

-- Whether `(!aulr && aulr !== 0) || isNaN(aulr)` does not hold.
abbrev pub is_usable_aulr : Claim → Bool
is_usable_aulr (number n) = true
is_usable_aulr (negative n) = true
is_usable_aulr missing = false
is_usable_aulr null = false
is_usable_aulr text = false
