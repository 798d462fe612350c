-- ===== src/BtcTx/Fee.antt =====
-- node-btc-tx-service/server.js: no transaction pays more than the fee that the setting allows for.
use chainpoint_core_erc.Prelude.{
  ◌≡◌, refl, subst, ℕ, Bool, true, false, Option, none, some, String, ◌∷◌, inl, inr, Bool-cases,
  if◌then◌else◌,
}
use chainpoint_core_erc.Prelude.Lists.{All}
use chainpoint_core_erc.Exec.{
  Result, Error, rpc_error, publish_error, syntax_error, type_error, ok, err,
}
use chainpoint_core_erc.Exec.Keeps.{
  Preorder, Keeps, Keeps-bind, Keeps-if, Keeps-try_catch, keeps_rules, Keeps-pure, Keeps-throw,
  Keeps-gets,
}
use chainpoint_core_erc.World.{Outcome, done, refused, lost, ack}
use chainpoint_core_erc.World.Calls.{next_outcome, respond, later_outcomes}
use chainpoint_core_erc.BtcTx.Numbers.{Doubles, IsMonotone}
use chainpoint_core_erc.BtcTx.{
  AnchorJob, TxResult, AnchorTx, TxWorld, TxEnv, call, set_last_known, get_fee, capped, final_fee,
  fee_total, send_op_return, send_tx_to_btc, publish_tx, settle, retry_later, anchor_job,
  process_incoming_anchor_btc_job,
}

module _ (fl : Doubles) (env : TxEnv fl.Double) where
  -- The largest fee of a transaction, for the largest fee of a byte.
  abbrev pub max_total : fl.Double
  max_total =
      fl.times (fl.ceil (fl.times env.btc_max_fee_sat_per_byte fl.fee_extra)) (fl.of_nat 235)

  -- Its fee in bitcoin stands for one in satoshi that is not above the largest.
  pub record IsCapped (tx : AnchorTx fl.Double) : Type 0 where
    pub same : tx.btc_fee ≡ fl.to_btc tx.fee_total_satoshi
    pub not_above : fl.greater tx.fee_total_satoshi max_total ≡ false

  abbrev keeps_capped : Preorder (TxWorld fl.Double)
  keeps_capped = record {
    rel = λ v w. All IsCapped v.transactions → All IsCapped w.transactions;
    rel_refl = λ w h. h;
    rel_trans = λ u v w p q h. q (p h);
  }

  capped-not_above :
      (max fee : fl.Double) → IsMonotone fl → fl.greater (capped fl max fee) max ≡ false
  capped-not_above max fee m = elim (Bool-cases (fl.greater fee max)) [
    | inl e ↦ rw e (m.irreflexive max)
    | inr e ↦ rw e e
  ]

  fee_total-not_above :
      (fee : fl.Double)
      → IsMonotone fl
      → fl.greater (fee_total fl (final_fee fl env.btc_max_fee_sat_per_byte fee)) max_total ≡ false
  unfolding fee_total final_fee
  fee_total-not_above fee m =
      let max = env.btc_max_fee_sat_per_byte in
      m.bytes_mono _ _ (m.ceil_mono _ _ (m.extra_mono _ max (capped-not_above max fee m)))

  respond-keeps :
      {A : Type 0} (o : Outcome) (e : Error) (f : TxWorld fl.Double → A × TxWorld fl.Double)
      (w : TxWorld fl.Double)
      → keeps_capped.rel w (f (record w { outcomes = later_outcomes w.outcomes })).1
      → keeps_capped.rel w (respond o e f (record w { outcomes = later_outcomes w.outcomes })).1
  respond-keeps done e f w h = h
  respond-keeps refused e f w h = λ p. p
  respond-keeps lost e f w h = h

  Keeps-call :
      {A : Type 0} (e : Error) (f : TxWorld fl.Double → A × TxWorld fl.Double)
      → ((w : TxWorld fl.Double)
          → keeps_capped.rel w (f (record w { outcomes = later_outcomes w.outcomes })).1)
      → Keeps keeps_capped (call fl e f)
  unfolding call
  Keeps-call e f h = record { at = λ w. respond-keeps (next_outcome w.outcomes) e f w (h w) }

  set_last_known-Keeps : (fee : fl.Double) → Keeps keeps_capped (set_last_known fl fee)
  unfolding set_last_known
  set_last_known-Keeps fee = record { at = λ w p. p }

  get_fee-Keeps : Keeps keeps_capped (get_fee fl)
  unfolding get_fee
  get_fee-Keeps =
      Keeps-try_catch _ _
        (Keeps-bind _ _ (Keeps-call rpc_error (λ w. (w.feerate, w)) (λ w p. p))
          (λ _. search (keeps_rules, set_last_known-Keeps)))
        (λ _. search keeps_rules)

  send_op_return-Keeps :
      (hash : Option String) (fee : fl.Double)
      → IsMonotone fl
      → Keeps keeps_capped
          (send_op_return fl env hash (final_fee fl env.btc_max_fee_sat_per_byte fee))
  unfolding send_op_return
  send_op_return-Keeps hash fee m =
      Keeps-call rpc_error _
        (λ w p. (record { same = refl; not_above = fee_total-not_above fee m }, p))

  send_tx_to_btc-Keeps :
      (hash : Option String) → IsMonotone fl → Keeps keeps_capped (send_tx_to_btc fl env hash)
  unfolding send_tx_to_btc
  send_tx_to_btc-Keeps hash m =
      Keeps-bind _ _ get_fee-Keeps (λ fee. send_op_return-Keeps hash fee m)

  publish_tx-Keeps :
      (job : AnchorJob) (tx : TxResult fl.Double) → Keeps keeps_capped (publish_tx fl job tx)
  unfolding publish_tx
  publish_tx-Keeps job tx = Keeps-call publish_error _ (λ w p. p)

  settled-keeps :
      (b : Bool) (tag : ℕ) (w : TxWorld fl.Double) (r : Result (Unit {0}) × TxWorld fl.Double)
      → (if b then (ok tt, record w { settled = ack tag ∷ w.settled }) else (err type_error, w)) ≡ r
      → keeps_capped.rel w r.1
  settled-keeps true tag w r e p = subst (λ x. All IsCapped x.1.transactions) e p
  settled-keeps false tag w r e p = subst (λ x. All IsCapped x.1.transactions) e p

  ack-Keeps : (tag : ℕ) → Keeps keeps_capped (settle fl (ack tag))
  unfolding settle
  ack-Keeps tag = record { at = λ w. settled-keeps w.channel tag w _ refl }

  retry_later-Keeps : (tag : ℕ) → Keeps keeps_capped (retry_later fl tag)
  unfolding retry_later
  retry_later-Keeps tag = record { at = λ w p. p }

  anchor_job-Keeps :
      (tag : ℕ) (job : AnchorJob) → IsMonotone fl → Keeps keeps_capped (anchor_job fl env tag job)
  unfolding anchor_job
  anchor_job-Keeps tag job m =
      Keeps-try_catch _ _
        (Keeps-bind _ _ (send_tx_to_btc-Keeps job.anchor_btc_agg_root m)
          (λ tx. Keeps-bind _ _ (publish_tx-Keeps job tx) (λ _. ack-Keeps tag)))
        (λ _. retry_later-Keeps tag)

-- Where the numbers are those of IEEE 754, and whatever the estimates, the outcomes of the calls and the
-- message: if every transaction sent so far pays at most 235 times the fee that the setting allows for a
-- byte, raised by a tenth and rounded up, then so does every transaction after the message.
pub process_incoming_anchor_btc_job-IsCapped :
    (fl : Doubles) (env : TxEnv fl.Double) (msg : Option (ℕ × Option AnchorJob))
    (w : TxWorld fl.Double)
    → IsMonotone fl
    → All (IsCapped fl env) w.transactions
    → All (IsCapped fl env) (process_incoming_anchor_btc_job fl env msg w).1.transactions
unfolding process_incoming_anchor_btc_job
process_incoming_anchor_btc_job-IsCapped fl env none w m h =
    (Keeps-pure {r = keeps_capped fl env} tt).at w h
process_incoming_anchor_btc_job-IsCapped fl env (some (tag, none)) w m h =
    (Keeps-throw {A = Unit {0}} {r = keeps_capped fl env} syntax_error).at w h
process_incoming_anchor_btc_job-IsCapped fl env (some (tag, some job)) w m h =
    (Keeps-bind {r = keeps_capped fl env} _ _ (Keeps-gets _)
        (λ b. Keeps-if b _ _ (anchor_job-Keeps fl env tag job m) (Keeps-throw _))).at
      w h
