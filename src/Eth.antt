-- ===== src/Eth.antt =====
-- node-api-service/lib/endpoints/eth.js: the state of an Ethereum address, and the broadcast of a transaction
-- to one of Chainpoint's contracts.
pub mod Stats
pub mod Broadcast
pub mod Allowed
pub mod Failing
use chainpoint_core_erc.Prelude.{
  ℕ, Bool, true, false, not, Option, none, some, String, List, [], ◌∷◌, ◌==◌, ◌&&◌, ◌||◌, eqb,
  if◌then◌else◌,
}
use chainpoint_core_erc.Prelude.Lists.{length, includes, filter_by}
use chainpoint_core_erc.Exec.{
  rpc_error, publish_error, type_error, not_an_integer, Error, Exec, pure, throw, try_catch, ◌>>=◌,
  ◌>>◌,
}
use chainpoint_core_erc.Utils.{all_hex, lower}
use chainpoint_core_erc.Utils.Ip.{codes}
use chainpoint_core_erc.UsageToken.{is_hex_tx}
use chainpoint_core_erc.UsageToken.State.{ApiWorld}
use chainpoint_core_erc.UsageToken.Calls.{query, execute}
use chainpoint_core_erc.UsageToken.Replies.{
  Reply, sent, invalid_argument, internal_server, ensure, ensure_some,
}

-- `registrationResult`; a number is none where `toNumber` throws.
pub record Registration : Type 0 where
  pub is_staked : Bool
  pub amount_staked : ℕ
  pub stake_locked_until : ℕ

-- What the event of a log says; a number that it does not say compares with nothing.
pub record EventResult : Type 0 where
  pub spender : Option String
  pub amount_staked : Option ℕ
  pub duration : Option ℕ

-- A log of a receipt, with what `parseLog` makes of it; a log of no known event has no name.
pub record Log : Type 0 where
  pub address : String
  pub name : Option String
  pub values : EventResult

pub record Receipt : Type 0 where
  pub transaction_hash : String
  pub block_hash : String
  pub block_number : ℕ
  pub gas_used : Option ℕ
  pub logs : List Log

-- The answer to a broadcast.
pub record BroadcastResult : Type 0 where
  pub transaction_hash : String
  pub block_hash : String
  pub block_number : ℕ
  pub gas_used : ℕ

-- Package ethers and the contracts' definitions: the contract that a raw transaction is for, the
-- method that a contract's interface reads in it, and the receipt that the network gives for it; and
-- what the providers say of an address.
pub record Ethers : Type 0 where
  pub token_address : String
  pub registry_address : String
  pub decode : String → Option String
  pub method_of : String → String → Option String
  pub receipt : String → Receipt
  pub gas_price : Option ℕ
  pub transaction_count : String → ℕ
  pub registration : String → Option Registration

-- A property of an object of objects, and whether it has a parser in turn.
abbrev pub entry_of : String → List (String × List String) → Option (List String)
entry_of key [] = none
entry_of key ((k, names) ∷ entries) = if k == key then some names else entry_of key entries

abbrev pub has_parser : Option (List String) → Bool
has_parser none = false
has_parser (some keys) = includes "parseValues" keys

module _ (eth : Ethers) where
  -- `ContractEvents`, by its keys: an address, and below it the names of events
  abbrev pub contract_events : List (String × List String)
  contract_events =
      (eth.token_address, "Approval" ∷ [])
      ∷ (eth.registry_address, "NodeStaked" ∷ "NodeUnStaked" ∷ [])
      ∷ []

  -- `ContractEvents[event.name].parseValues(event.values)`
  unfoldable pub parse_values : String → EventResult → Exec ApiWorld EventResult
  parse_values name values =
      if has_parser (entry_of name contract_events) then pure values else throw type_error

  abbrev is_zero : Option ℕ → Bool
  is_zero none = false
  is_zero (some n) = eqb n 0

  abbrev is_registry : Option String → Bool
  is_registry none = false
  is_registry (some spender) = spender == eth.registry_address

  -- Whether the event says that the method has failed.
  unfoldable pub event_failed : String → String → EventResult → Bool
  event_failed to name r =
      if to == eth.token_address
      then name == "Approval" && not (is_registry r.spender)
      else (name == "NodeStaked" || name == "NodeUnStaked")
        && (is_zero r.amount_staked || is_zero r.duration)

  -- one log, by its name, and then the others
  unfoldable pub check_log :
      String → Option String → EventResult → Exec ApiWorld (Unit {0}) → Exec ApiWorld (Unit {0})
  check_log to none values next = throw type_error
  check_log to (some name) values next = do
    r ← parse_values name values
    if event_failed to name r then throw type_error else next

  -- the loop over the logs of the contract
  unfoldable pub check_logs : String → List Log → Exec ApiWorld (Unit {0})
  check_logs to [] = pure tt
  check_logs to (log ∷ logs) = check_log to log.name log.values (check_logs to logs)

  unfoldable pub to_result : Receipt → Option ℕ → Exec ApiWorld BroadcastResult
  to_result receipt none = throw not_an_integer
  to_result receipt (some gas_used) = pure (record {
    transaction_hash = receipt.transaction_hash;
    block_hash = receipt.block_hash;
    block_number = receipt.block_number;
    gas_used = gas_used;
  })

  -- what is checked once the transaction is mined
  unfoldable pub check_receipt : String → Receipt → Exec ApiWorld (Reply BroadcastResult)
  check_receipt to receipt = do
    r ← to_result receipt receipt.gas_used
    check_logs to (filter_by (λ log. log.address == to) receipt.logs)
    pure (sent r)

  -- `sendTransaction` and `waitForTransaction`, and the checks of the receipt
  unfoldable pub broadcast : String → String → Exec ApiWorld (Reply BroadcastResult)
  broadcast raw_tx to =
      try_catch
        (do
          execute publish_error (λ w. record w { eth_txs = raw_tx ∷ w.eth_txs })
          check_receipt to (eth.receipt raw_tx))
        (λ _. pure internal_server)

  -- The methods that may be called on the contract.
  unfoldable pub allowed_methods : String → Option (List String)
  allowed_methods to =
      if to == eth.token_address
      then some ("approve" ∷ [])
      else if to == eth.registry_address
      then some ("stake" ∷ "unStake" ∷ "updateStake" ∷ [])
      else none

  -- `parsedTx.name` is read outside of every `try`.
  unfoldable pub with_method :
      Option String
      → List String
      → Exec ApiWorld (Reply BroadcastResult)
      → Exec ApiWorld (Reply BroadcastResult)
  with_method none allowed next = throw type_error
  with_method (some name) allowed next = ensure (includes name allowed) invalid_argument next

  unfoldable pub post_eth_broadcast : Option String → Exec ApiWorld (Reply BroadcastResult)
  post_eth_broadcast tx = ensure_some tx invalid_argument (λ raw_tx.
      ensure (is_hex_tx raw_tx) invalid_argument (
        ensure_some (eth.decode raw_tx) invalid_argument (λ to.
          ensure_some (allowed_methods to) invalid_argument
            (λ allowed. with_method (eth.method_of to raw_tx) allowed (broadcast raw_tx to)))))
