-- ===== src/BtcTx/Resent.antt =====
-- node-btc-tx-service/server.js: a job whose transaction is sent and cannot be announced is sent again.
use chainpoint_core_erc.Prelude.{◌≡◌, refl, ℕ, true, some, [], ◌∷◌, map}
use chainpoint_core_erc.Exec.{pure, gets, try_catch, ◌>>=◌}
use chainpoint_core_erc.World.{done, refused, ack, nack}
use chainpoint_core_erc.BtcTx.Numbers.{Doubles}
use chainpoint_core_erc.BtcTx.{
  AnchorJob, TxWorld, TxEnv, call, set_last_known, get_fee, send_op_return, send_tx_to_btc,
  publish_tx, settle, retry_later, anchor_job, process_incoming_anchor_btc_job, fire_retry,
}

module _ (fl : Doubles) (env : TxEnv fl.Double) (tag : ℕ) (job : AnchorJob) where
  abbrev deliver : TxWorld fl.Double → TxWorld fl.Double
  deliver w = (process_incoming_anchor_btc_job fl env (some (tag, some job)) w).1

  -- The channel is open, and the third call, which announces the transaction, will fail.
  abbrev announcement_fails : TxWorld fl.Double → TxWorld fl.Double
  announcement_fails w = record w { channel = true; outcomes = done ∷ done ∷ refused ∷ [] }

  -- The message is delivered, nacked when its timer runs out, and delivered again.
  abbrev pub twice_delivered : TxWorld fl.Double → TxWorld fl.Double
  twice_delivered w = deliver (fire_retry fl tag (deliver (announcement_fails w))).1

-- Where the channel is open, the transaction of a job is sent and its announcement fails: once the
-- message is nacked and delivered again, and no further call fails, two transactions for the same value
-- have been sent, and the calendar knows of one.
pub process_incoming_anchor_btc_job_resends :
    (fl : Doubles) (env : TxEnv fl.Double) (tag : ℕ) (job : AnchorJob) (w : TxWorld fl.Double)
    → let w' = twice_delivered fl env tag job w in
      (map (λ t. t.hash) w'.transactions
        ≡ job.anchor_btc_agg_root ∷ job.anchor_btc_agg_root ∷ map (λ t. t.hash) w.transactions)
      × (map (λ m. m.job) w'.sent ≡ job ∷ map (λ m. m.job) w.sent)
      × (w'.settled ≡ ack tag ∷ nack tag ∷ w.settled)
unfolding process_incoming_anchor_btc_job anchor_job send_tx_to_btc get_fee set_last_known
    send_op_return publish_tx settle retry_later fire_retry call try_catch gets pure ◌>>=◌
process_incoming_anchor_btc_job_resends fl env tag job w = (refl, refl, refl)
