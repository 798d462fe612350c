-- ===== src/UsageToken.antt =====
-- node-api-service/lib/endpoints/usage-token.js: the three handlers, composed of the checks of
-- `UsageToken.Checks`.
pub mod State
pub mod Calls
pub mod Replies
pub mod TokenUtils
pub mod StatusRequest
pub mod Recovered
pub mod Checks
pub mod Silent
pub mod Frame
pub mod Inversion
pub mod Refresh
pub mod Audience
pub mod Credit
pub mod Granted
use chainpoint_core_erc.Prelude.{
  ℕ, ◌+◌, ◌-◌, ◌*◌, ◌/◌, Bool, true, not, Option, none, some, String, List, [], ◌∷◌, ◌++◌, ◌==◌,
  ltb, starts_with, ◌&&◌,
}
use chainpoint_core_erc.Exec.{
  Error, publish_error, type_error, Result, ok, Exec, pure, throw, gets, try_catch, ◌>>=◌, ◌>>◌,
}
use chainpoint_core_erc.Utils.{get_client_ip, is_hex, slice_from, get_client_ip}
use chainpoint_core_erc.UsageToken.State.{Claim, number, Claims, Payload, ActiveToken, ApiWorld}
use chainpoint_core_erc.UsageToken.Calls.{execute}
use chainpoint_core_erc.UsageToken.TokenUtils.{
  TokenEnv, now_seconds, add_to_token_hash_cache, get_cached_core_id, broadcast_core_tx,
  write_active_token,
}
use chainpoint_core_erc.UsageToken.Checks.{
  TokenRequest, with_aud, with_token, with_subject, ensure_active, less_than_one, minus_one,
  later_of, is_usable_exp, is_unexpired, is_usable_aulr,
}
use chainpoint_core_erc.UsageToken.Replies.{
  Reply, sent, invalid_argument, bad_request, unauthorized, too_many_requests, internal_server,
  ensure, ensure_some,
}

-- `uuidv1()`: each call gives the next one
unfoldable pub next_uuid : TokenEnv → Exec ApiWorld String
next_uuid env w = (ok (env.uuid w.uuids), record w { uuids = w.uuids + 1 })

unfoldable pub construct_token_payload :
    TokenEnv → String → Claim → Claim → List String → Claim → Exec ApiWorld Payload
construct_token_payload env submitting_node_ip exp bal aud aulr = do
  jti ← next_uuid env
  pure (record {
    jti = jti;
    iss = env.base_uri;
    sub = submitting_node_ip;
    exp = exp;
    bal = bal;
    aud = aud;
    aulr = aulr;
  })

-- The new token is cached until the Node uses it; the active token is not changed.
unfoldable pub refresh_token :
    TokenEnv → String → List String → Claims → Exec ApiWorld (Reply String)
refresh_token env ip aud claims = do
  now ← gets now_seconds
  payload ←
      construct_token_payload env ip (number (later_of claims.exp now + 60 * 60))
        (minus_one claims.bal) aud (number 3)
  ensure_some (env.sign payload) internal_server (λ refreshed. do
    cached ← add_to_token_hash_cache (env.sha256 refreshed)
    ensure cached internal_server (pure (sent refreshed)))

unfoldable pub post_token_refresh : TokenEnv → TokenRequest → Exec ApiWorld (Reply String)
post_token_refresh env req = with_aud env req (λ aud. with_token env req (λ t d.
    with_subject req d (λ ip.
      ensure (not (less_than_one d.claims.bal)) invalid_argument
        (ensure_active env ip t (refresh_token env ip aud d.claims)))))

-- a failed write is only logged
unfoldable pub store_active_token : String → String → Exec ApiWorld Bool
store_active_token ip new_token_hash =
    try_catch (write_active_token (record { node_ip = ip; token_hash = new_token_hash }))
      (λ _. pure true)

-- Make the new token the active one, here and on the network.
unfoldable pub activate_token : TokenEnv → String → String → Exec ApiWorld (Reply String)
activate_token env ip new_token = do
  let new_token_hash = env.sha256 new_token
  store_active_token ip new_token_hash
  try_catch
      (do
        core_id ← get_cached_core_id env
        broadcast_core_tx core_id ip new_token_hash
        pure (sent new_token))
      (λ _. pure internal_server)

unfoldable pub update_audience :
    TokenEnv → String → List String → Claims → Exec ApiWorld (Reply String)
update_audience env ip aud claims = do
  payload ← construct_token_payload env ip claims.exp claims.bal aud (minus_one claims.aulr)
  ensure_some (env.sign payload) internal_server (activate_token env ip)

-- The balance is carried over as it is; a missing one stays missing, here `missing`.
unfoldable pub post_token_audience_update : TokenEnv → TokenRequest → Exec ApiWorld (Reply String)
post_token_audience_update env req = with_aud env req (λ aud. with_token env req (λ t d.
    with_subject req d (λ ip. ensure (is_usable_exp d.claims.exp) invalid_argument (do
      clock ← gets (λ w. w.clock)
      ensure (is_unexpired d.claims.exp clock) unauthorized (
          ensure (is_usable_aulr d.claims.aulr) invalid_argument (
            ensure (not (less_than_one d.claims.aulr)) too_many_requests
              (ensure_active env ip t (update_audience env ip aud d.claims))))))))

-- A decoded method call of a transaction; `amount` is its first argument, `none` where `toNumber`
-- throws.
pub record Method : Type 0 where
  pub name : String
  pub amount : Option ℕ

-- `parseTransaction`; `method` is `none` where the contract has no such method.
pub record EthTx : Type 0 where
  pub to : String
  pub method : Option Method

-- Package ethers, and the contract's address.
pub record EthEnv : Type 0 where
  pub parse_transaction : String → Option EthTx
  pub token_contract_address : String

-- It starts with 0x, and goes on in hex.
unfoldable pub is_hex_tx : String → Bool
is_hex_tx raw_tx = starts_with raw_tx "0x" && is_hex (slice_from 2 raw_tx)

-- The checks of a purchase, up to its amount. Two of its accesses are outside of every `try`.
unfoldable pub with_amount :
    Option Method → (ℕ → Exec ApiWorld (Reply String)) → Exec ApiWorld (Reply String)
with_amount none next = throw type_error
with_amount (some m) next = ensure (m.name == "purchaseUsage") invalid_argument (elim m.amount [
  | none ↦ throw type_error
  | some spend_amount ↦
      ensure (not (ltb spend_amount 100000000)) invalid_argument (next spend_amount)
])

unfoldable pub with_purchase :
    EthEnv
    → TokenRequest
    → (String → ℕ → Exec ApiWorld (Reply String))
    → Exec ApiWorld (Reply String)
with_purchase eth req next = ensure_some req.raw_tx invalid_argument (λ raw_tx.
    ensure (is_hex_tx raw_tx) invalid_argument (
      ensure_some (eth.parse_transaction raw_tx) invalid_argument (λ tx.
        ensure (tx.to == eth.token_contract_address) invalid_argument
          (with_amount tx.method (next raw_tx)))))

-- `fallbackProvider.sendTransaction` and `waitForTransaction`
unfoldable pub broadcast_eth : String → Exec ApiWorld (Reply String) → Exec ApiWorld (Reply String)
broadcast_eth raw_tx next = do
  broadcast ←
      try_catch
        (do execute publish_error (λ w. record w { eth_txs = raw_tx ∷ w.eth_txs }); pure (some tt))
        (λ _. pure none)
  ensure_some broadcast internal_server (λ _. next)

-- The price of a credit is 0.1, and dividing a whole number by it is exact in a double.
abbrev pub purchased_balance : ℕ → ℕ
purchased_balance spend_amount = spend_amount / 100000000 * 10 - 1

unfoldable pub issue_credit : TokenEnv → String → List String → ℕ → Exec ApiWorld (Reply String)
issue_credit env ip aud spend_amount = do
  now ← gets now_seconds
  payload ←
      construct_token_payload env ip (number (now + 60 * 60))
        (number (purchased_balance spend_amount)) aud (number 3)
  ensure_some (env.sign payload) internal_server (activate_token env ip)

unfoldable pub post_token_credit : TokenEnv → EthEnv → TokenRequest → Exec ApiWorld (Reply String)
post_token_credit env eth req = with_aud env req (λ aud.
    with_purchase eth req (λ raw_tx spend_amount.
      ensure_some (get_client_ip req.addresses) bad_request
        (λ ip. broadcast_eth raw_tx (issue_credit env ip aud spend_amount))))
