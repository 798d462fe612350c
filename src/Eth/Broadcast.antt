-- ===== src/Eth/Broadcast.antt =====
-- node-api-service/lib/endpoints/eth.js: the broadcast of a transaction that has passed the checks.
use chainpoint_core_erc.Prelude.{
  ◌≡◌, refl, sym, ap, subst, ◌∙◌, ℕ, Option, none, some, String, List, [], ◌∷◌, ◌⊎◌, inl, inr,
}
use chainpoint_core_erc.Exec.{publish_error, ok, err, Exec, pure, try_catch}
use chainpoint_core_erc.Exec.Keeps.{Preorder, Keeps, keeps_rules}
use chainpoint_core_erc.Exec.Steps.{try_catch->>=, try_catch-err, >>=-err}
use chainpoint_core_erc.World.{Outcome, done, refused, lost}
use chainpoint_core_erc.World.Calls.{next_outcome, respond}
use chainpoint_core_erc.UsageToken.State.{ApiWorld}
use chainpoint_core_erc.UsageToken.Calls.{called, execute}
use chainpoint_core_erc.UsageToken.Replies.{internal_server}
use chainpoint_core_erc.Eth.{
  EventResult, Log, Receipt, Ethers, parse_values, check_log, check_logs, check_receipt, to_result,
  broadcast,
}

abbrev same_eth_txs : Preorder ApiWorld
same_eth_txs = record {
  rel = λ v w. w.eth_txs ≡ v.eth_txs;
  rel_refl = λ w. refl;
  rel_trans = λ u v w p q. q ∙ p;
}

-- The transaction is sent.
abbrev pub record_tx : String → ApiWorld → ApiWorld
record_tx raw_tx w = record w { eth_txs = raw_tx ∷ w.eth_txs }

module _ (eth : Ethers) where
  parse_values-Keeps :
      (name : String) (values : EventResult) → Keeps same_eth_txs (parse_values eth name values)
  unfolding parse_values
  parse_values-Keeps name values = search keeps_rules

  check_log-Keeps :
      (to : String) (name : Option String) (values : EventResult) (next : Exec ApiWorld (Unit {0}))
      → Keeps same_eth_txs next
      → Keeps same_eth_txs (check_log eth to name values next)
  unfolding check_log
  check_log-Keeps to none values next h = search keeps_rules
  check_log-Keeps to (some name) values next h = search (keeps_rules, parse_values-Keeps)

  check_logs-Keeps : (to : String) (logs : List Log) → Keeps same_eth_txs (check_logs eth to logs)
  unfolding check_logs
  check_logs-Keeps to [] = search keeps_rules
  check_logs-Keeps to (log ∷ logs) =
      check_log-Keeps to log.name log.values (check_logs eth to logs) (check_logs-Keeps to logs)

  to_result-Keeps : (r : Receipt) (gas : Option ℕ) → Keeps same_eth_txs (to_result eth r gas)
  unfolding to_result
  to_result-Keeps r none = search keeps_rules
  to_result-Keeps r (some gas) = search keeps_rules

  check_receipt-Keeps : (to : String) (r : Receipt) → Keeps same_eth_txs (check_receipt eth to r)
  unfolding check_receipt
  check_receipt-Keeps to r = search (keeps_rules, to_result-Keeps, check_logs-Keeps)

  tried-Keeps :
      (to : String) (r : Receipt)
      → Keeps same_eth_txs (try_catch (check_receipt eth to r) (λ _. pure internal_server))
  tried-Keeps to r = search (keeps_rules, check_receipt-Keeps)

  abbrev pub Sent : String → ApiWorld → ApiWorld → Type 0
  Sent raw_tx w v = (v.eth_txs ≡ w.eth_txs) ⊎ (v.eth_txs ≡ raw_tx ∷ w.eth_txs)

  -- How the call that sends ends.
  execute-ends :
      (raw_tx : String) (w : ApiWorld)
      → (execute publish_error (record_tx raw_tx) w ≡ (ok tt, record_tx raw_tx (called w)))
        ⊎ ((v : ApiWorld) × (execute publish_error (record_tx raw_tx) w ≡ (err publish_error, v))
            × Sent raw_tx w v)
  unfolding execute
  execute-ends raw_tx w = by_outcome (next_outcome w.outcomes)
    where
      by_outcome :
          (o : Outcome)
          → (respond o publish_error (λ v. (tt {0}, record_tx raw_tx v)) (called w)
              ≡ (ok tt, record_tx raw_tx (called w)))
            ⊎ ((v : ApiWorld) × (respond o publish_error
                    (λ v. (tt {0}, record_tx raw_tx v))
                    (called w)
                  ≡ (err publish_error, v))
                × Sent raw_tx w v)
      by_outcome done = inl refl
      by_outcome refused = inr (called w, refl, inl refl)
      by_outcome lost = inr (record_tx raw_tx (called w), refl, inr refl)

  pub broadcast-Sent :
      (raw_tx to : String) (w : ApiWorld) → Sent raw_tx w (broadcast eth raw_tx to w).1
  unfolding broadcast pure
  broadcast-Sent raw_tx to w = elim (execute-ends raw_tx w) [
    | inl e ↦ inr (
        ap (λ x. x.1.eth_txs) (try_catch->>= (execute publish_error (record_tx raw_tx)) _ _ e)
        ∙ (tried-Keeps to (eth.receipt raw_tx)).at (record_tx raw_tx (called w)))
    | inr (v, e, s) ↦
        subst (λ x. Sent raw_tx w x.1)
          (sym (try_catch-err _ _ (>>=-err (execute publish_error (record_tx raw_tx)) _ e))) s
  ]
