-- ===== src/Eth/Failing.antt =====
-- node-api-service/lib/endpoints/eth.js: a transaction that has had an effect is answered with an error.
use chainpoint_core_erc.Prelude.{
  ◌≡◌, refl, ap, ◌∙◌, ℕ, true, false, Option, none, some, String, List, [], ◌∷◌, inl, inr, ◌==◌,
  Bool-cases,
}
use chainpoint_core_erc.Prelude.Lists.{includes, filter_by}
use chainpoint_core_erc.Exec.{
  Error, publish_error, type_error, not_an_integer, ok, err, Exec, pure, throw, ◌>>=◌, ◌>>◌,
}
use chainpoint_core_erc.Exec.Steps.{try_catch->>=, try_catch-err, >>=-err, >>=-ok}
use chainpoint_core_erc.UsageToken.{is_hex_tx}
use chainpoint_core_erc.UsageToken.State.{ApiWorld}
use chainpoint_core_erc.UsageToken.Calls.{called, execute}
use chainpoint_core_erc.UsageToken.Replies.{sent, internal_server, ensure, ensure_some}
use chainpoint_core_erc.Eth.{
  EventResult, Log, Receipt, Ethers, contract_events, entry_of, has_parser, parse_values, check_log,
  check_logs, check_receipt, to_result, broadcast, allowed_methods, with_method, post_eth_broadcast,
}
use chainpoint_core_erc.Eth.Broadcast.{record_tx}

no_parser :
    (eth : Ethers) (name : String) → has_parser (entry_of name (contract_events eth)) ≡ false
no_parser eth name = elim (Bool-cases (eth.token_address == name)) [
  | inl e ↦ rw e refl
  | inr e ↦ elim (Bool-cases (eth.registry_address == name)) [
    | inl e' ↦ rw (e, e') refl
    | inr e' ↦ rw (e, e') refl
  ]
]

module _ (eth : Ethers) (w : ApiWorld) where
  parse_values-throws :
      (name : String) (values : EventResult) → parse_values eth name values w ≡ (err type_error, w)
  unfolding parse_values throw
  parse_values-throws name values = rw (no_parser eth name) refl

  check_log-throws :
      (to : String) (name : Option String) (values : EventResult) (next : Exec ApiWorld (Unit {0}))
      → check_log eth to name values next w ≡ (err type_error, w)
  unfolding check_log throw
  check_log-throws to none values next = refl
  check_log-throws to (some name) values next = >>=-err _ _ (parse_values-throws name values)

  check_logs-throws :
      (to : String) (log : Log) (logs all : List Log)
      → all ≡ log ∷ logs
      → check_logs eth to all w ≡ (err type_error, w)
  unfolding check_logs
  check_logs-throws to log logs all h =
      ap (λ l. check_logs eth to l w) h
      ∙ check_log-throws to log.name log.values (check_logs eth to logs)

  with_gas :
      (to : String) (r : Receipt) (gas : Option ℕ)
      → check_logs eth to (filter_by (λ log. log.address == to) r.logs) w ≡ (err type_error, w)
      → (e : Error) × ((do
        x ← to_result eth r gas
        check_logs eth to (filter_by (λ log. log.address == to) r.logs)
        pure (sent x))
            w
          ≡ (err e, w))
  unfolding to_result throw pure
  with_gas to r none h = (not_an_integer, >>=-err _ _ refl)
  with_gas to r (some gas) h = (type_error, >>=-ok _ _ refl ∙ >>=-err _ _ h)

  check_receipt-throws :
      (to : String) (r : Receipt) (log : Log) (logs : List Log)
      → filter_by (λ log. log.address == to) r.logs ≡ log ∷ logs
      → (e : Error) × (check_receipt eth to r w ≡ (err e, w))
  unfolding check_receipt
  check_receipt-throws to r log logs h =
      with_gas to r r.gas_used (check_logs-throws to log logs _ h)

execute-quiet :
    (raw_tx : String) (w : ApiWorld)
    → w.outcomes ≡ []
    → execute publish_error (record_tx raw_tx) w ≡ (ok tt, record_tx raw_tx (called w))
unfolding execute
execute-quiet raw_tx w h = rw h refl

broadcast-fails :
    (eth : Ethers) (raw_tx to : String) (w : ApiWorld) (log : Log) (logs : List Log)
    → w.outcomes ≡ []
    → filter_by (λ log. log.address == to) (eth.receipt raw_tx).logs ≡ log ∷ logs
    → broadcast eth raw_tx to w ≡ (ok internal_server, record_tx raw_tx (called w))
unfolding broadcast pure
broadcast-fails eth raw_tx to w log logs quiet h =
    let (e, k) =
      check_receipt-throws eth (record_tx raw_tx (called w)) to (eth.receipt raw_tx) log logs h in
    try_catch->>= (execute publish_error (record_tx raw_tx)) _ _ (execute-quiet raw_tx w quiet)
    ∙ try_catch-err _ _ k

-- Where a transaction has passed the checks and no call fails, and its receipt has a log of the contract:
-- the transaction was broadcast, and the answer is a server error, whatever the log says.
pub post_eth_broadcast_fails :
    (eth : Ethers) (raw_tx to name : String) (methods : List String) (w : ApiWorld) (log : Log)
    (logs : List Log)
    → is_hex_tx raw_tx ≡ true
    → eth.decode raw_tx ≡ some to
    → allowed_methods eth to ≡ some methods
    → eth.method_of to raw_tx ≡ some name
    → includes name methods ≡ true
    → w.outcomes ≡ []
    → filter_by (λ log. log.address == to) (eth.receipt raw_tx).logs ≡ log ∷ logs
    → ((post_eth_broadcast eth (some raw_tx) w).0 ≡ ok internal_server)
      × ((post_eth_broadcast eth (some raw_tx) w).1.eth_txs ≡ raw_tx ∷ w.eth_txs)
unfolding post_eth_broadcast with_method ensure ensure_some
post_eth_broadcast_fails eth raw_tx to name methods w log logs hex d c m a quiet h =
    rw (hex, d, c, m, a, broadcast-fails eth raw_tx to w log logs quiet h) (refl, refl)
