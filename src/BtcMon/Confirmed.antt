-- ===== src/BtcMon/Confirmed.antt =====
-- node-btc-mon-service/server.js: what is published of a transaction.
use chainpoint_core_erc.Prelude.{
  ◌≡◌, refl, sym, subst, ℕ, ◌≤◌, Bool, true, false, Option, none, some, String, List, [], ◌∷◌, ◌++◌,
  ltb, if◌then◌else◌, ◌⊎◌, inl, inr, arith,
}
use chainpoint_core_erc.Prelude.Lists.{All, All-append}
use chainpoint_core_erc.Exec.{
  Error, type_error, syntax_error, Result, ok, err, Exec, pure, throw, lift, ◌>>=◌,
}
use chainpoint_core_erc.Exec.Keeps.{Preorder, Keeps, Keeps-bind, keeps_rules}
use chainpoint_core_erc.BtcMon.{
  MonEnv, MonMessage, TxStats, BlockStats, MonWorld, execute, query, some_or_throw, send_to_queue,
  remove_tx_id, report, check_transaction, check_logged, check_each, set_checks_in_progress,
  run_checks, monitor_transactions, build_message,
}
use chainpoint_core_erc.BtcMon.InBlock.{IsInBlock, build_message-eq}

pub record IsConfirmed (env : MonEnv) (m : MonMessage) : Type 0 where
  pub tx_id : String
  pub tx_stats : TxStats
  pub block : BlockStats
  pub stats_eq : env.transaction_data tx_id ≡ some tx_stats
  pub confirmed : env.min_btc_confirms ≤ tx_stats.confirmations
  pub block_eq : env.block_data tx_stats.block_hash ≡ some block
  pub in_block : IsInBlock env tx_stats block m

not-ltb : {a b : ℕ} → ltb a b ≡ false → b ≤ a
not-ltb h = ground arith

-- Every message that is sent stays right, if it was.
abbrev sound : MonEnv → Preorder MonWorld
sound env = record {
  rel = λ v w. All (IsConfirmed env) v.sent → All (IsConfirmed env) w.sent;
  rel_refl = λ w h. h;
  rel_trans = λ u v w p q h. q (p h);
}

module _ (env : MonEnv) where
  sent-same :
      (v w : MonWorld)
      → w.sent ≡ v.sent
      → All (IsConfirmed env) v.sent
      → All (IsConfirmed env) w.sent
  sent-same v w e h = subst (All (IsConfirmed env)) (sym e) h

  some_or_throw-Keeps :
      {A : Type 0} (e : Error) (o : Option A) → Keeps (sound env) (some_or_throw e o)
  unfolding some_or_throw
  some_or_throw-Keeps e none = search keeps_rules
  some_or_throw-Keeps e (some a) = search keeps_rules

  remove_tx_id-sent : (text : String) (w : MonWorld) → (remove_tx_id text w).1.sent ≡ w.sent
  unfolding remove_tx_id execute
  remove_tx_id-sent text w = ground arith

  remove_tx_id-Keeps : (text : String) → Keeps (sound env) (remove_tx_id text)
  remove_tx_id-Keeps text = record {
    at = λ w. sent-same w (remove_tx_id text w).1 (remove_tx_id-sent text w);
  }

  send_to_queue-sent :
      (m : MonMessage) (w : MonWorld)
      → ((send_to_queue m w).1.sent ≡ w.sent) ⊎ ((send_to_queue m w).1.sent ≡ w.sent ++ m ∷ [])
  unfolding send_to_queue execute throw
  send_to_queue-sent m w = ground arith

  send_to_queue-Keeps : (m : MonMessage) → IsConfirmed env m → Keeps (sound env) (send_to_queue m)
  send_to_queue-Keeps m c = record {
    at = λ w h. elim (send_to_queue-sent m w) [
      | inl e ↦ sent-same w (send_to_queue m w).1 e h
      | inr e ↦
          subst (All (IsConfirmed env)) (sym e)
            (All-append (IsConfirmed env) w.sent (m ∷ []) h (c, tt))
    ];
  }

  Keeps-some :
      {A B : Type 0} (e : Error) (o : Option A) (f : A → Exec MonWorld B)
      → ((a : A) → o ≡ some a → Keeps (sound env) (f a))
      → Keeps (sound env) (some_or_throw e o >>= f)
  unfolding some_or_throw throw pure ◌>>=◌
  Keeps-some e none f k = record { at = λ w h. h }
  Keeps-some e (some a) f k = record { at = (k a refl).at }

  Keeps-lifted :
      {A B : Type 0} (x : Result A) (f : A → Exec MonWorld B)
      → ((a : A) → x ≡ ok a → Keeps (sound env) (f a))
      → Keeps (sound env) (lift x >>= f)
  unfolding lift ◌>>=◌
  Keeps-lifted (err e) f k = record { at = λ w h. h }
  Keeps-lifted (ok a) f k = record { at = (k a refl).at }

  report-Keeps :
      (text tx_id : String) (s : TxStats)
      → env.transaction_data tx_id ≡ some s
      → env.min_btc_confirms ≤ s.confirmations
      → Keeps (sound env) (report env text s)
  unfolding report
  report-Keeps text tx_id s e c = Keeps-some type_error (env.block_data s.block_hash) _ (λ b q.
      Keeps-lifted (build_message env s b) _ (λ m r.
        Keeps-bind (send_to_queue m) (λ _. remove_tx_id text)
          (send_to_queue-Keeps m (record {
            tx_id = tx_id;
            tx_stats = s;
            block = b;
            stats_eq = e;
            confirmed = c;
            block_eq = q;
            in_block = build_message-eq env s b m r;
          }))
          (λ _. remove_tx_id-Keeps text)))

  ready-Keeps :
      (c : Bool) (m : Exec MonWorld (Unit {0}))
      → (c ≡ false → Keeps (sound env) m)
      → Keeps (sound env) (if c then pure tt else m)
  ready-Keeps true m k = search keeps_rules
  ready-Keeps false m k = k refl

  check_transaction-Keeps :
      (text tx_id : String) → Keeps (sound env) (check_transaction env text tx_id)
  unfolding check_transaction
  check_transaction-Keeps text tx_id = Keeps-some type_error (env.transaction_data tx_id) _ (λ s e.
      ready-Keeps (ltb s.confirmations env.min_btc_confirms) (report env text s)
        (λ c. report-Keeps text tx_id s e (not-ltb c)))

  check_logged-Keeps : (text tx_id : String) → Keeps (sound env) (check_logged env text tx_id)
  unfolding check_logged
  check_logged-Keeps text tx_id = search (keeps_rules, check_transaction-Keeps)

  check_each-Keeps : (texts : List String) → Keeps (sound env) (check_each env texts)
  unfolding check_each
  check_each-Keeps [] = search keeps_rules
  check_each-Keeps (text ∷ texts) =
      Keeps-bind _ _ (some_or_throw-Keeps syntax_error (env.parse text)) (λ tx_id.
        Keeps-bind (check_logged env text tx_id) (λ _. check_each env texts)
          (check_logged-Keeps text tx_id) (λ _. check_each-Keeps texts))

  set_checks_in_progress-Keeps : (b : Bool) → Keeps (sound env) (set_checks_in_progress b)
  unfolding set_checks_in_progress
  set_checks_in_progress-Keeps b = record { at = λ w h. h }

  query-sent :
      {A : Type 0} (e : Error) (f : MonWorld → A) (w : MonWorld) → (query e f w).1.sent ≡ w.sent
  unfolding query
  query-sent e f w = ground arith

  query-Keeps : {A : Type 0} (e : Error) (f : MonWorld → A) → Keeps (sound env) (query e f)
  query-Keeps e f = record { at = λ w. sent-same w (query e f w).1 (query-sent e f w) }

  monitor_transactions-Keeps : Keeps (sound env) (monitor_transactions env)
  unfolding monitor_transactions run_checks
  monitor_transactions-Keeps =
      search (keeps_rules, set_checks_in_progress-Keeps, query-Keeps, check_each-Keeps) depth 9

-- Whatever the outcomes of the calls: where every message sent so far is about a confirmed transaction, so
-- is every message sent after a pass: the transaction has the least number of confirmations, stands
-- in its block, the root over the block's ids is the block's Merkle root, and the path is that of
-- the transaction in this tree.
pub monitor_transactions-IsConfirmed :
    (env : MonEnv) (w : MonWorld)
    → All (IsConfirmed env) w.sent
    → All (IsConfirmed env) (monitor_transactions env w).1.sent
monitor_transactions-IsConfirmed env w = (monitor_transactions-Keeps env).at w
