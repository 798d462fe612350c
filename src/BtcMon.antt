-- ===== src/BtcMon.antt =====
-- node-btc-mon-service/server.js: the transactions to watch, and a pass over them.
pub mod Links
pub mod Progress
pub mod InBlock
pub mod Confirmed
use chainpoint_core_erc.Prelude.{
  reverse, ℕ, ◌+◌, Bool, true, false, not, Option, none, some, String, List, [], ◌∷◌, ◌++◌, map,
  ◌==◌, ◌&&◌, ltb, if◌then◌else◌,
}
use chainpoint_core_erc.Prelude.Lists.{filter_by, includes}
use chainpoint_core_erc.Exec.{
  Error, redis_error, publish_error, type_error, syntax_error, Result, ok, err, Exec, pure, throw,
  gets, lift, try_catch, ◌>>=◌, ◌>>◌,
}
use chainpoint_core_erc.World.{Outcome, Settlement, ack, nack}
use chainpoint_core_erc.World.Calls.{next_outcome, later_outcomes, respond}

-- A hex text, by its pairs of characters.
abbrev pub Hex : Type 0
Hex = List String

-- What the providers give of a transaction and of a block (package btc-bridge).
pub record TxStats : Type 0 where
  pub tx_id : Hex
  pub confirmations : ℕ
  pub block_hash : Hex

pub record BlockStats : Type 0 where
  pub height : ℕ
  pub merkle_root : Hex
  pub tx : List Hex

-- `{ left }` or `{ right }` of a proof path (package merkle-tools).
pub data ProofStep : Type 0 where
  left right : Hex → ProofStep

-- `messageObj`, published with the type `btcmon`.
pub record MonMessage : Type 0 where
  pub btctx_id : Hex
  pub btchead_height : ℕ
  pub btchead_root : Hex
  pub path : List ProofStep

-- What one pass takes from outside: the `tx_id` of a text if it is JSON, the answers of the
-- providers, `none` for a failure, and the Bitcoin Merkle tree over leaves: its root and the path of
-- a leaf.
pub record MonEnv : Type 0 where
  pub min_btc_confirms : ℕ
  pub parse : String → Option String
  pub transaction_data : String → Option TxStats
  pub block_data : Hex → Option BlockStats
  pub btc_root : List Hex → Hex
  pub btc_path : List Hex → ℕ → List ProofStep

pub record MonWorld : Type 0 where
  pub outcomes : List Outcome
  pub redis : Bool
  pub channel : Bool
  pub checks_in_progress : Bool
  pub btc_tx_ids : List String
  pub sent : List MonMessage
  pub settled : List Settlement

unfoldable pub execute : Error → (MonWorld → MonWorld) → Exec MonWorld (Unit {0})
execute e f w =
    respond (next_outcome w.outcomes) e (λ v. (tt, f v))
      (record w { outcomes = later_outcomes w.outcomes })

unfoldable pub query : {A : Type 0} → Error → (MonWorld → A) → Exec MonWorld A
query e f w =
    respond (next_outcome w.outcomes) e (λ v. (f v, v))
      (record w { outcomes = later_outcomes w.outcomes })

-- `amqpChannel.ack(msg)` and `amqpChannel.nack(msg)`: a method call on null is a TypeError.
unfoldable pub settle : Settlement → Exec MonWorld (Unit {0})
settle s w =
    if w.channel then (ok tt, record w { settled = s ∷ w.settled }) else (err type_error, w)

-- `redis.sadd(key, text)`
unfoldable pub add_tx_id : String → Exec MonWorld (Unit {0})
add_tx_id text w =
    if w.redis
    then execute redis_error
        (λ v. record v {
          btc_tx_ids = if includes text v.btc_tx_ids then v.btc_tx_ids else text ∷ v.btc_tx_ids;
        })
        w
    else throw type_error w

-- A delivered message by its tag and its text, or null.
unfoldable pub consume_btc_tx_id_message : Option (ℕ × String) → Exec MonWorld (Unit {0})
consume_btc_tx_id_message none = pure tt
consume_btc_tx_id_message (some (tag, text)) =
    try_catch (do add_tx_id text; settle (ack tag)) (λ _. settle (nack tag))

abbrev pub eq_hex : Hex → Hex → Bool
eq_hex [] [] = true
eq_hex [] (y ∷ ys) = false
eq_hex (x ∷ xs) [] = false
eq_hex (x ∷ xs) (y ∷ ys) = x == y && eq_hex xs ys

abbrev pub plus_one : Option ℕ → Option ℕ
plus_one none = none
plus_one (some n) = some (n + 1)

-- `indexOf`
unfoldable pub index_of : Hex → List Hex → Option ℕ
index_of x [] = none
index_of x (y ∷ ys) = if eq_hex y x then some 0 else plus_one (index_of x ys)

-- `.match(/.{2}/g).reverse().join('')`: `match` of an empty text is null
unfoldable pub reverse_hex : Hex → Result Hex
reverse_hex [] = err type_error
reverse_hex (x ∷ xs) = ok (reverse (x ∷ xs))

abbrev pub cons_hex : Result Hex → Result (List Hex) → Result (List Hex)
cons_hex (err e) rs = err e
cons_hex (ok x) (err e) = err e
cons_hex (ok x) (ok xs) = ok (x ∷ xs)

unfoldable pub reverse_all : List Hex → Result (List Hex)
reverse_all [] = ok []
reverse_all (x ∷ xs) = cons_hex (reverse_hex x) (reverse_all xs)

-- The message, if the root that was computed is the block's.
abbrev pub with_root : MonEnv → TxStats → BlockStats → ℕ → List Hex → Result Hex → Result MonMessage
with_root env tx_stats block tx_index leaves (err e) = err e
with_root env tx_stats block tx_index leaves (ok root) =
    if eq_hex root block.merkle_root
    then ok (record {
      btctx_id = tx_stats.tx_id;
      btchead_height = block.height;
      btchead_root = root;
      path = env.btc_path leaves tx_index;
    })
    else err type_error

abbrev pub with_leaves : MonEnv → TxStats → BlockStats → ℕ → Result (List Hex) → Result MonMessage
with_leaves env tx_stats block tx_index (err e) = err e
with_leaves env tx_stats block tx_index (ok []) = err type_error
with_leaves env tx_stats block tx_index (ok (l ∷ ls)) =
    with_root env tx_stats block tx_index (l ∷ ls) (reverse_hex (env.btc_root (l ∷ ls)))

abbrev pub with_index : MonEnv → TxStats → BlockStats → Option ℕ → Result MonMessage
with_index env tx_stats block none = err type_error
with_index env tx_stats block (some tx_index) =
    with_leaves env tx_stats block tx_index (reverse_all block.tx)

unfoldable pub build_message : MonEnv → TxStats → BlockStats → Result MonMessage
build_message env tx_stats block = with_index env tx_stats block (index_of tx_stats.tx_id block.tx)

unfoldable pub some_or_throw : {A : Type 0} → Error → Option A → Exec MonWorld A
some_or_throw e none = throw e
some_or_throw e (some a) = pure a

unfoldable pub send_to_queue : MonMessage → Exec MonWorld (Unit {0})
send_to_queue m w =
    if w.channel
    then execute publish_error (λ v. record v { sent = v.sent ++ m ∷ [] }) w
    else throw type_error w

-- `redis.srem(key, text)`
unfoldable pub remove_tx_id : String → Exec MonWorld (Unit {0})
remove_tx_id text =
    execute redis_error
      (λ v. record v { btc_tx_ids = filter_by (λ t. not (t == text)) v.btc_tx_ids })

unfoldable pub report : MonEnv → String → TxStats → Exec MonWorld (Unit {0})
report env text tx_stats = do
  block ← some_or_throw type_error (env.block_data tx_stats.block_hash)
  message ← lift (build_message env tx_stats block)
  send_to_queue message
  remove_tx_id text

-- The body of the `try` for one transaction; its errors are logged, whatever they are.
unfoldable pub check_transaction : MonEnv → String → String → Exec MonWorld (Unit {0})
check_transaction env text tx_id = do
  tx_stats ← some_or_throw type_error (env.transaction_data tx_id)
  if ltb tx_stats.confirmations env.min_btc_confirms then pure tt else report env text tx_stats

unfoldable pub check_logged : MonEnv → String → String → Exec MonWorld (Unit {0})
check_logged env text tx_id = try_catch (check_transaction env text tx_id) (λ _. pure tt)

-- The texts are parsed outside the `try`.
unfoldable pub check_each : MonEnv → List String → Exec MonWorld (Unit {0})
check_each env [] = pure tt
check_each env (text ∷ texts) = do
  tx_id ← some_or_throw syntax_error (env.parse text)
  check_logged env text tx_id
  check_each env texts

unfoldable pub set_checks_in_progress : Bool → Exec MonWorld (Unit {0})
set_checks_in_progress b w = (ok tt, record w { checks_in_progress = b })

unfoldable pub run_checks : MonEnv → Exec MonWorld (Unit {0})
run_checks env = do
  set_checks_in_progress true
  texts ← query redis_error (λ w. w.btc_tx_ids)
  check_each env texts
  set_checks_in_progress false

unfoldable pub monitor_transactions : MonEnv → Exec MonWorld (Unit {0})
monitor_transactions env = do
  ready ← gets (λ w. w.channel && w.redis)
  if ready then run_checks env else pure tt

-- What the interval runs.
unfoldable pub tick : MonEnv → Exec MonWorld (Unit {0})
tick env = do
  in_progress ← gets (λ w. w.checks_in_progress)
  if in_progress then pure tt else monitor_transactions env
