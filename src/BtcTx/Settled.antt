-- ===== src/BtcTx/Settled.antt =====
-- node-btc-tx-service/server.js: a job is acked, once its transaction is sent and announced, or it is
-- timed for another delivery.
use chainpoint_core_erc.Prelude.{
  ◌≡◌, refl, sym, ap, subst, ◌∙◌, ℕ, true, some, ◌∷◌, ◌⊎◌, inl, inr, if◌then◌else◌,
}
use chainpoint_core_erc.Exec.{Result, publish_error, ok, throw, gets}
use chainpoint_core_erc.Exec.Steps.{>>=-ok, >>=-err, try_catch-ok, try_catch-err}
use chainpoint_core_erc.World.{ack}
use chainpoint_core_erc.BtcTx.Numbers.{Doubles}
use chainpoint_core_erc.BtcTx.{
  AnchorJob, TxResult, BtcTxMessage, TxWorld, TxEnv, send_tx_to_btc, publish_tx, settle,
  retry_later, anchor_job, process_incoming_anchor_btc_job,
}
use chainpoint_core_erc.BtcTx.Sending.{Same, call-Ends, IsSent, send_tx_to_btc-Ends}

module _ (fl : Doubles) where
  abbrev pub message_of : AnchorJob → TxResult fl.Double → BtcTxMessage
  message_of job r = record { job = job; btctx_id = r.tx_id; btctx_body = r.tx_hex }

  -- The transaction is sent and announced, and the message is acked.
  pub record IsAnnounced (env : TxEnv fl.Double) (tag : ℕ) (job : AnchorJob)
      (v w : TxWorld fl.Double) : Type 0 where
    pub result : TxResult fl.Double
    pub is_sent : IsSent fl env job.anchor_btc_agg_root v.transactions w.transactions result
    pub announced : w.sent ≡ message_of job result ∷ v.sent
    pub acked : w.settled ≡ ack tag ∷ v.settled
    pub untimed : w.retries ≡ v.retries

  -- The message is not settled, and a timer of it is set.
  pub record IsTimed (tag : ℕ) (v w : TxWorld fl.Double) : Type 0 where
    pub unsettled : w.settled ≡ v.settled
    pub timed : w.retries ≡ tag ∷ v.retries

  ack-eq :
      (tag : ℕ) (w : TxWorld fl.Double)
      → w.channel ≡ true
      → settle fl (ack tag) w ≡ (ok tt, record w { settled = ack tag ∷ w.settled })
  unfolding settle
  ack-eq tag w h = rw h refl

  module _ (env : TxEnv fl.Double) (tag : ℕ) (job : AnchorJob) (w : TxWorld fl.Double) where
    abbrev JobEnds : Result (Unit {0}) × TxWorld fl.Double → Type 0
    JobEnds x = (x.0 ≡ ok tt) × (IsAnnounced env tag job w x.1 ⊎ IsTimed tag w x.1)

    retry_later-Ends :
        (v : TxWorld fl.Double)
        → v.settled ≡ w.settled
        → v.retries ≡ w.retries
        → JobEnds (retry_later fl tag v)
    unfolding retry_later
    retry_later-Ends v settled retries =
        (refl, inr (record { unsettled = settled; timed = ap (λ l. tag ∷ l) retries }))

    published-Ends :
        (r : TxResult fl.Double) (v : TxWorld fl.Double)
        → w.channel ≡ true
        → Same fl w v
        → IsSent fl env job.anchor_btc_agg_root w.transactions v.transactions r
        → send_tx_to_btc fl env job.anchor_btc_agg_root w ≡ (ok r, v)
        → JobEnds (anchor_job fl env tag job w)
    unfolding anchor_job publish_tx
    published-Ends r v h same k e = elim (call-Ends fl publish_error _ v) [
      | inl e' ↦
          subst JobEnds
            (sym (
              try_catch-ok _ _
                (>>=-ok _ _ e ∙ (>>=-ok _ _ e' ∙ ack-eq tag _ (ap (λ x. x.0) same ∙ h)))))
            (
              refl,
              inl (record {
                result = r;
                is_sent = k;
                announced = ap (λ x. message_of job r ∷ x.1) same;
                acked = ap (λ x. ack tag ∷ x.2) same;
                untimed = ap (λ x. x.3) same;
              }),
            )
      | inr (inl e') ↦
          subst JobEnds (sym (try_catch-err _ _ (>>=-ok _ _ e ∙ >>=-err _ _ e')))
            (retry_later-Ends _ (ap (λ x. x.2) same) (ap (λ x. x.3) same))
      | inr (inr e') ↦
          subst JobEnds (sym (try_catch-err _ _ (>>=-ok _ _ e ∙ >>=-err _ _ e')))
            (retry_later-Ends _ (ap (λ x. x.2) same) (ap (λ x. x.3) same))
    ]

    anchor_job-Ends : w.channel ≡ true → JobEnds (anchor_job fl env tag job w)
    unfolding anchor_job
    anchor_job-Ends h = elim (send_tx_to_btc-Ends fl env job.anchor_btc_agg_root w) [
      | inl (r, v, e, same, k) ↦ published-Ends r v h same k e
      | inr (v, e, same) ↦
          subst JobEnds (sym (try_catch-err _ _ (>>=-err _ _ e)))
            (retry_later-Ends v (ap (λ x. x.2) same) (ap (λ x. x.3) same))
    ]

-- On an open channel, whatever the outcomes of the calls, the handler of a readable job returns. Either
-- one transaction was sent, whose data is the value to anchor, the calendar was told its id and its
-- body with the job, and the message is acked; or the message is not settled, and one timer was set
-- that will nack it.
pub process_incoming_anchor_btc_job_settles :
    (fl : Doubles) (env : TxEnv fl.Double) (tag : ℕ) (job : AnchorJob) (w : TxWorld fl.Double)
    → w.channel ≡ true
    → ((process_incoming_anchor_btc_job fl env (some (tag, some job)) w).0 ≡ ok tt)
      × (IsAnnounced fl env tag job w
            (process_incoming_anchor_btc_job fl env (some (tag, some job)) w).1
          ⊎ IsTimed fl tag w (process_incoming_anchor_btc_job fl env (some (tag, some job)) w).1)
unfolding process_incoming_anchor_btc_job gets
process_incoming_anchor_btc_job_settles fl env tag job w h =
    subst (JobEnds fl env tag job w)
      (sym (
        >>=-ok (gets (λ w. w.channel)) _ refl
        ∙ ap (λ b. (if b then anchor_job fl env tag job else throw publish_error) w) h))
      (anchor_job-Ends fl env tag job w h)
