-- ===== src/BtcMon/Progress.antt =====
-- node-btc-mon-service/server.js: when the flag of a pass is cleared, and when it never is.
use chainpoint_core_erc.Prelude.{
  ◌≡◌, refl, ◌∙◌, true, false, Option, none, some, String, List, [], ◌∷◌, ◌⊎◌, inl, inr,
  Option-cases, arith,
}
use chainpoint_core_erc.Prelude.Lists.{All}
use chainpoint_core_erc.Exec.{
  Error, redis_error, syntax_error, Result, ok, err, handle, Exec, pure, throw, gets, try_catch,
  ◌>>=◌, ◌>>◌,
}
use chainpoint_core_erc.Exec.Keeps.{Preorder, Keeps, Keeps-bind, keeps_rules}
use chainpoint_core_erc.World.{Outcome, done, refused, lost}
use chainpoint_core_erc.World.Calls.{next_outcome, later_outcomes}
use chainpoint_core_erc.BtcMon.{
  MonEnv, MonMessage, TxStats, MonWorld, execute, query, some_or_throw, send_to_queue, remove_tx_id,
  report, check_transaction, check_logged, check_each, set_checks_in_progress, run_checks,
  monitor_transactions, tick,
}

abbrev same_progress : Preorder MonWorld
same_progress = record {
  rel = λ v w. w.checks_in_progress ≡ v.checks_in_progress;
  rel_refl = λ w. refl;
  rel_trans = λ u v w p q. q ∙ p;
}

some_or_throw-Keeps :
    {A : Type 0} (e : Error) (o : Option A) → Keeps same_progress (some_or_throw e o)
unfolding some_or_throw
some_or_throw-Keeps e none = search keeps_rules
some_or_throw-Keeps e (some a) = search keeps_rules

send_to_queue-Keeps : (m : MonMessage) → Keeps same_progress (send_to_queue m)
unfolding send_to_queue execute throw
send_to_queue-Keeps m = record { at = λ w. ground arith }

remove_tx_id-Keeps : (text : String) → Keeps same_progress (remove_tx_id text)
unfolding remove_tx_id execute
remove_tx_id-Keeps text = record { at = λ w. ground arith }

report-Keeps :
    (env : MonEnv) (text : String) (s : TxStats) → Keeps same_progress (report env text s)
unfolding report
report-Keeps env text s =
    search (keeps_rules, some_or_throw-Keeps, send_to_queue-Keeps, remove_tx_id-Keeps) depth 8

check_transaction-Keeps :
    (env : MonEnv) (text tx_id : String) → Keeps same_progress (check_transaction env text tx_id)
unfolding check_transaction
check_transaction-Keeps env text tx_id =
    search (keeps_rules, some_or_throw-Keeps, report-Keeps) depth 8

check_logged-Keeps :
    (env : MonEnv) (text tx_id : String) → Keeps same_progress (check_logged env text tx_id)
unfolding check_logged
check_logged-Keeps env text tx_id = search (keeps_rules, check_transaction-Keeps)

check_each-Keeps : (env : MonEnv) (texts : List String) → Keeps same_progress (check_each env texts)
unfolding check_each
check_each-Keeps env [] = search keeps_rules
check_each-Keeps env (text ∷ texts) =
    Keeps-bind _ _ (some_or_throw-Keeps syntax_error (env.parse text)) (λ tx_id.
      Keeps-bind (check_logged env text tx_id) (λ _. check_each env texts)
        (check_logged-Keeps env text tx_id) (λ _. check_each-Keeps env texts))

-- Every text is JSON.
abbrev pub AllReadable : MonEnv → List String → Type 0
AllReadable env = All (λ text. (tx_id : String) × (env.parse text ≡ some tx_id))

-- Some text is not JSON.
abbrev pub AnyUnreadable : MonEnv → List String → Type 0
AnyUnreadable env [] = ⊥
AnyUnreadable env (text ∷ texts) = (env.parse text ≡ none) ⊎ AnyUnreadable env texts

handle-tt : (x : Result (Unit {0})) (w : MonWorld) → (handle x (λ _. pure tt) w).0 ≡ ok tt
unfolding pure
handle-tt (ok tt) w = refl
handle-tt (err e) w = refl

check_logged-eq :
    (env : MonEnv) (text tx_id : String) (w : MonWorld) → (check_logged env text tx_id w).0 ≡ ok tt
unfolding check_logged try_catch
check_logged-eq env text tx_id w = handle-tt _ _

-- A readable text takes the loop to the texts that follow.
check_each-readable :
    (env : MonEnv) (text : String) (texts : List String) (tx_id : String) (w : MonWorld)
    → env.parse text ≡ some tx_id
    → check_each env (text ∷ texts) w ≡ check_each env texts (check_logged env text tx_id w).1
unfolding check_each pure ◌>>=◌ some_or_throw
check_each-readable env text texts tx_id w e = rw (e, check_logged-eq env text tx_id w) refl

check_each-unreadable :
    (env : MonEnv) (text : String) (texts : List String) (w : MonWorld)
    → env.parse text ≡ none
    → (check_each env (text ∷ texts) w).0 ≡ err syntax_error
unfolding check_each throw ◌>>=◌ some_or_throw
check_each-unreadable env text texts w e = rw e refl

check_each-err :
    (env : MonEnv) (texts : List String) (w : MonWorld)
    → AnyUnreadable env texts
    → (check_each env texts w).0 ≡ err syntax_error
check_each-err env [] w h = elim h [ ]
check_each-err env (text ∷ texts) w (inl e) = check_each-unreadable env text texts w e
check_each-err env (text ∷ texts) w (inr h) = elim (Option-cases (env.parse text)) [
  | inl e ↦ check_each-unreadable env text texts w e
  | inr (tx_id, e) ↦
      rw (check_each-readable env text texts tx_id w e)
        (check_each-err env texts (check_logged env text tx_id w).1 h)
]

check_each-ok :
    (env : MonEnv) (texts : List String) (w : MonWorld)
    → AllReadable env texts
    → (check_each env texts w).0 ≡ ok tt
unfolding check_each pure
check_each-ok env [] w h = refl
check_each-ok env (text ∷ texts) w ((tx_id, e), h) =
    rw (check_each-readable env text texts tx_id w e)
      (check_each-ok env texts (check_logged env text tx_id w).1 h)

-- The service has its channel and its Redis connection.
abbrev pub IsConnected : MonWorld → Type 0
IsConnected w = (w.channel ≡ true) × (w.redis ≡ true)

monitor_transactions-connected :
    (env : MonEnv) (w : MonWorld)
    → w.channel ≡ true
    → w.redis ≡ true
    → monitor_transactions env w ≡ run_checks env w
unfolding monitor_transactions gets pure ◌>>=◌
monitor_transactions-connected env w c r = rw (c, r) refl

tick-busy : (env : MonEnv) (w : MonWorld) → w.checks_in_progress ≡ true → tick env w ≡ (ok tt, w)
unfolding tick gets pure ◌>>=◌
tick-busy env w h = rw h refl

-- The world once the set has been read, and what follows then.
abbrev read_world : MonWorld → MonWorld
read_world w = record w { checks_in_progress = true; outcomes = later_outcomes w.outcomes }

abbrev finish : MonEnv → List String → Exec MonWorld (Unit {0})
finish env texts = do check_each env texts; set_checks_in_progress false

module _ (env : MonEnv) (w : MonWorld) where
  run_checks-read :
      next_outcome w.outcomes ≡ done → run_checks env w ≡ finish env w.btc_tx_ids (read_world w)
  unfolding run_checks set_checks_in_progress query ◌>>=◌
  run_checks-read q = rw q refl

  run_checks-refused :
      next_outcome w.outcomes ≡ refused → run_checks env w ≡ (err redis_error, read_world w)
  unfolding run_checks set_checks_in_progress query ◌>>=◌
  run_checks-refused q = rw q refl

  run_checks-lost :
      next_outcome w.outcomes ≡ lost → run_checks env w ≡ (err redis_error, read_world w)
  unfolding run_checks set_checks_in_progress query ◌>>=◌
  run_checks-lost q = rw q refl

finish-err :
    (env : MonEnv) (texts : List String) (w : MonWorld)
    → AnyUnreadable env texts
    → finish env texts w ≡ (err syntax_error, (check_each env texts w).1)
unfolding ◌>>=◌
finish-err env texts w h = rw (check_each-err env texts w h) refl

finish-clears :
    (env : MonEnv) (texts : List String) (w : MonWorld)
    → AllReadable env texts
    → ((finish env texts w).0 ≡ ok tt) × ((finish env texts w).1.checks_in_progress ≡ false)
unfolding ◌>>=◌ set_checks_in_progress
finish-clears env texts w h = rw (check_each-ok env texts w h) (refl, refl)

run_checks-stuck :
    (env : MonEnv) (w : MonWorld)
    → AnyUnreadable env w.btc_tx_ids
    → (o : Outcome) → next_outcome w.outcomes ≡ o
    → ((e : Error) × ((run_checks env w).0 ≡ err e))
      × ((run_checks env w).1.checks_in_progress ≡ true)
run_checks-stuck env w h done q =
    rw (run_checks-read env w q, finish-err env w.btc_tx_ids (read_world w) h)
      ((syntax_error, refl), (check_each-Keeps env w.btc_tx_ids).at (read_world w))
run_checks-stuck env w h refused q = rw (run_checks-refused env w q) ((redis_error, refl), refl)
run_checks-stuck env w h lost q = rw (run_checks-lost env w q) ((redis_error, refl), refl)

-- Whatever the outcomes of the calls: where a text of the set is not JSON, a pass on a connected
-- service throws and leaves the flag set, and every later tick changes nothing.
pub monitor_transactions_stuck :
    (env : MonEnv) (w : MonWorld)
    → IsConnected w
    → AnyUnreadable env w.btc_tx_ids
    → ((e : Error) × ((monitor_transactions env w).0 ≡ err e))
      × ((later : MonEnv)
          → tick later (monitor_transactions env w).1 ≡ (ok tt, (monitor_transactions env w).1))
monitor_transactions_stuck env w (c, r) h =
    let (threw, flag) = run_checks-stuck env w h (next_outcome w.outcomes) refl in
    rw (monitor_transactions-connected env w c r) (threw, λ later. tick-busy later _ flag)

-- Where every text of the set is JSON and the set is read, a pass on a connected service returns,
-- whatever the outcomes of the calls after that, with the flag cleared.
pub monitor_transactions_clears :
    (env : MonEnv) (w : MonWorld)
    → IsConnected w
    → next_outcome w.outcomes ≡ done
    → AllReadable env w.btc_tx_ids
    → ((monitor_transactions env w).0 ≡ ok tt)
      × ((monitor_transactions env w).1.checks_in_progress ≡ false)
monitor_transactions_clears env w (c, r) q h =
    rw (monitor_transactions-connected env w c r, run_checks-read env w q)
      (finish-clears env w.btc_tx_ids (read_world w) h)
