-- ===== src/Tests/Mon.antt =====
-- A pass of the Bitcoin monitor over one transaction of a block, and its theorems at that input.
use chainpoint_core_erc.Prelude.{
  ◌≡◌, refl, false, true, none, some, [], ◌∷◌, ◌==◌, if◌then◌else◌, inl, inr,
}
use chainpoint_core_erc.Prelude.Lists.{All}
use chainpoint_core_erc.Exec.{Error, ok, err, gets, pure, lift, try_catch, ◌>>=◌}
use chainpoint_core_erc.BtcMon.{
  Hex, MonEnv, MonWorld, MonMessage, execute, query, some_or_throw, send_to_queue, remove_tx_id,
  report, check_transaction, check_logged, check_each, set_checks_in_progress, run_checks,
  monitor_transactions, tick, index_of, reverse_hex, reverse_all, build_message,
}
use chainpoint_core_erc.BtcMon.Progress.{monitor_transactions_stuck, monitor_transactions_clears}
use chainpoint_core_erc.BtcMon.Confirmed.{IsConfirmed, monitor_transactions-IsConfirmed}

abbrev mon_tx : Hex
mon_tx = "ab" ∷ "cd" ∷ []

abbrev mon_env : MonEnv
mon_env = record {
  min_btc_confirms = 6;
  parse = λ t. if t == "json" then some "abcd" else none;
  transaction_data =
      λ _. some (record { tx_id = mon_tx; confirmations = 7; block_hash = "b1" ∷ [] });
  block_data =
      λ _. some (record { height = 100; merkle_root = "11" ∷ "00" ∷ []; tx = mon_tx ∷ [] });
  btc_root = λ _. "00" ∷ "11" ∷ [];
  btc_path = λ _ _. [];
}

abbrev mon_world : MonWorld
mon_world = record {
  outcomes = [];
  redis = true;
  channel = true;
  checks_in_progress = false;
  btc_tx_ids = "json" ∷ [];
  sent = [];
  settled = [];
}

abbrev mon_message : MonMessage
mon_message = record {
  btctx_id = mon_tx;
  btchead_height = 100;
  btchead_root = "11" ∷ "00" ∷ [];
  path = [];
}

-- The transaction is reported, and no longer watched.
monitor_transactions_runs :
    let w = (monitor_transactions mon_env mon_world).1 in
    (w.sent ≡ mon_message ∷ []) × (w.btc_tx_ids ≡ [])
unfolding monitor_transactions run_checks set_checks_in_progress check_each check_logged
    check_transaction report remove_tx_id send_to_queue some_or_throw query execute index_of
    reverse_hex reverse_all build_message gets pure lift try_catch ◌>>=◌
monitor_transactions_runs = (refl, refl)

monitor_transactions-IsConfirmed_example :
    All (IsConfirmed mon_env) (monitor_transactions mon_env mon_world).1.sent
monitor_transactions-IsConfirmed_example = monitor_transactions-IsConfirmed mon_env mon_world tt

monitor_transactions_clears_example :
    ((monitor_transactions mon_env mon_world).0 ≡ ok tt)
    × ((monitor_transactions mon_env mon_world).1.checks_in_progress ≡ false)
monitor_transactions_clears_example =
    monitor_transactions_clears mon_env mon_world (refl, refl) refl (("abcd", refl), tt)

abbrev stuck_world : MonWorld
stuck_world = record mon_world { btc_tx_ids = "json" ∷ "text" ∷ [] }

monitor_transactions_stuck_example :
    ((e : Error) × ((monitor_transactions mon_env stuck_world).0 ≡ err e))
    × ((later : MonEnv)
        → tick later (monitor_transactions mon_env stuck_world).1
          ≡ (ok tt, (monitor_transactions mon_env stuck_world).1))
monitor_transactions_stuck_example =
    monitor_transactions_stuck mon_env stuck_world (refl, refl) (inr (inl refl))
