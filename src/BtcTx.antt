-- ===== src/BtcTx.antt =====
-- node-btc-tx-service/server.js: the value to be anchored is sent to Bitcoin in a transaction, and the
-- calendar is told.
pub mod Links
pub mod Numbers
pub mod Fee
pub mod Sending
pub mod Settled
pub mod Resent
use Numbers.{Doubles}
use chainpoint_core_erc.Prelude.{
  ℕ, Bool, Option, none, some, String, List, [], ◌∷◌, not, eqb, if◌then◌else◌,
}
use chainpoint_core_erc.Prelude.Lists.{length, filter_by}
use chainpoint_core_erc.Exec.{
  Error, rpc_error, publish_error, type_error, syntax_error, ok, err, Exec, pure, throw, gets,
  try_catch, ◌>>=◌, ◌>>◌,
}
use chainpoint_core_erc.World.{Outcome, Settlement, ack, nack}
use chainpoint_core_erc.World.Calls.{next_outcome, later_outcomes, respond}

-- `messageObj`: the value to anchor, and the other fields, by their JSON text.
pub record AnchorJob : Type 0 where
  pub anchor_btc_agg_root : Option String
  pub others : String

-- `txResult`
pub record TxResult (D : Type 0) : Type 0 where
  pub tx_id : String
  pub tx_hex : String
  pub publish_date : ℕ
  pub fee_satoshi_per_byte : D
  pub fee_paid_satoshi : D

-- A transaction that the wallet has sent: the data of its OP_RETURN, its fee in bitcoin, and the fee in
-- satoshi that this one stands for.
pub record AnchorTx (D : Type 0) : Type 0 where
  pub hash : Option String
  pub btc_fee : D
  pub fee_total_satoshi : D

-- The message of type `btctx` to the calendar.
pub record BtcTxMessage : Type 0 where
  pub job : AnchorJob
  pub btctx_id : String
  pub btctx_body : String

-- `feerate` is what the providers would estimate; `retries` are the messages whose nack is timed.
pub record TxWorld (D : Type 0) : Type 0 where
  pub clock : ℕ
  pub outcomes : List Outcome
  pub channel : Bool
  pub feerate : D
  pub last_known_fee_sat_per_byte : Option D
  pub transactions : List (AnchorTx D)
  pub sent : List BtcTxMessage
  pub settled : List Settlement
  pub retries : List ℕ

-- The setting BTC_MAX_FEE_SAT_PER_BYTE; the id and the text of a transaction of package btc-bridge, the
-- next one each time, for its data and fee.
pub record TxEnv (D : Type 0) : Type 0 where
  pub btc_max_fee_sat_per_byte : D
  pub tx_id : ℕ → Option String → D → String
  pub tx_hex : ℕ → Option String → D → String

module _ (fl : Doubles) where
  abbrev pub World : Type 0
  World = TxWorld fl.Double

  unfoldable pub call : {A : Type 0} → Error → (World → A × World) → Exec World A
  call e f w =
      respond (next_outcome w.outcomes) e f (record w { outcomes = later_outcomes w.outcomes })

  abbrev or_default : Option fl.Double → fl.Double
  or_default none = fl.of_nat 250
  or_default (some fee) = if fl.is_truthy fee then fee else fl.of_nat 250

  unfoldable pub set_last_known : fl.Double → Exec World (Unit {0})
  set_last_known fee w = (ok tt, record w { last_known_fee_sat_per_byte = some fee })

  -- The estimated fee or, when there is none, the last one known.
  unfoldable pub get_fee : Exec World fl.Double
  get_fee =
      try_catch
        (do
          feerate ← call rpc_error (λ w. (w.feerate, w))
          set_last_known (fl.sat_per_byte feerate)
          pure (fl.sat_per_byte feerate))
        (λ _. gets (λ w. or_default w.last_known_fee_sat_per_byte))

  abbrev pub capped : fl.Double → fl.Double → fl.Double
  capped max fee = if fl.greater fee max then max else fee

  unfoldable pub final_fee : fl.Double → fl.Double → fl.Double
  final_fee max fee = fl.ceil (fl.times (capped max fee) fl.fee_extra)

  unfoldable pub fee_total : fl.Double → fl.Double
  fee_total fee_sat_per_byte = fl.times fee_sat_per_byte (fl.of_nat 235)

  -- `wallet.generateOpReturnTxWithFeeAsync`, and the fields that are added to its result
  unfoldable pub send_op_return :
      TxEnv fl.Double → Option String → fl.Double → Exec World (TxResult fl.Double)
  send_op_return env hash fee = call rpc_error (λ w.
      let total = fee_total fee in
      let btc_fee = fl.to_btc total in
      let number = length w.transactions in
      let tx : AnchorTx fl.Double = record {
        hash = hash;
        btc_fee = btc_fee;
        fee_total_satoshi = total;
      } in
      let result : TxResult fl.Double = record {
        tx_id = env.tx_id number hash btc_fee;
        tx_hex = env.tx_hex number hash btc_fee;
        publish_date = w.clock;
        fee_satoshi_per_byte = fee;
        fee_paid_satoshi = total;
      } in
      (result, record w { transactions = tx ∷ w.transactions }))

  unfoldable pub send_tx_to_btc : TxEnv fl.Double → Option String → Exec World (TxResult fl.Double)
  send_tx_to_btc env hash = do
    fee ← get_fee
    send_op_return env hash (final_fee env.btc_max_fee_sat_per_byte fee)

  -- the message to the calendar
  unfoldable pub publish_tx : AnchorJob → TxResult fl.Double → Exec World (Unit {0})
  publish_tx job tx = call publish_error (λ w.
      let message : BtcTxMessage = record {
        job = job;
        btctx_id = tx.tx_id;
        btctx_body = tx.tx_hex;
      } in
      (tt, record w { sent = message ∷ w.sent }))

  unfoldable pub settle : Settlement → Exec World (Unit {0})
  settle s w =
      if w.channel then (ok tt, record w { settled = s ∷ w.settled }) else (err type_error, w)

  -- `setTimeout`, of a nack
  unfoldable pub retry_later : ℕ → Exec World (Unit {0})
  retry_later tag w = (ok tt, record w { retries = tag ∷ w.retries })

  -- A job, by its tag, on a channel that is open.
  unfoldable pub anchor_job : TxEnv fl.Double → ℕ → AnchorJob → Exec World (Unit {0})
  anchor_job env tag job =
      try_catch
        (do tx ← send_tx_to_btc env job.anchor_btc_agg_root; publish_tx job tx; settle (ack tag))
        (λ _. retry_later tag)

  -- A delivered message, by its tag and what its JSON stands for, or null.
  unfoldable pub process_incoming_anchor_btc_job :
      TxEnv fl.Double → Option (ℕ × Option AnchorJob) → Exec World (Unit {0})
  process_incoming_anchor_btc_job env none = pure tt
  process_incoming_anchor_btc_job env (some (tag, none)) = throw syntax_error
  process_incoming_anchor_btc_job env (some (tag, some job)) = do
    channel ← gets (λ w. w.channel)
    if channel then anchor_job env tag job else throw publish_error

  -- The callback of the timer.
  unfoldable pub fire_retry : ℕ → Exec World (Unit {0})
  fire_retry tag w =
      settle (nack tag) (record w { retries = filter_by (λ t. not (eqb t tag)) w.retries })
