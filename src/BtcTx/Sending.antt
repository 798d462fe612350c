-- ===== src/BtcTx/Sending.antt =====
-- node-btc-tx-service/server.js: how the sending of a transaction ends.
use chainpoint_core_erc.Prelude.{
  ◌≡◌, refl, subst, ◌∙◌, ℕ, Bool, Option, String, List, ◌∷◌, ◌⊎◌, inl, inr,
}
use chainpoint_core_erc.Prelude.Lists.{length}
use chainpoint_core_erc.Exec.{Error, Result, rpc_error, ok, err, Exec, pure, gets}
use chainpoint_core_erc.Exec.Steps.{>>=-ok, >>=-err, try_catch-ok, try_catch-err}
use chainpoint_core_erc.World.{Outcome, done, refused, lost, Settlement}
use chainpoint_core_erc.World.Calls.{next_outcome, respond, later_outcomes}
use chainpoint_core_erc.BtcTx.Numbers.{Doubles}
use chainpoint_core_erc.BtcTx.{
  TxResult, AnchorTx, BtcTxMessage, TxWorld, TxEnv, call, set_last_known, get_fee, final_fee,
  send_op_return, send_tx_to_btc,
}

module _ (fl : Doubles) where
  -- What a job does not touch before it is settled.
  abbrev pub untouched : TxWorld fl.Double → Bool × List BtcTxMessage × List Settlement × List ℕ
  untouched w = (w.channel, w.sent, w.settled, w.retries)

  abbrev pub Same : TxWorld fl.Double → TxWorld fl.Double → Type 0
  Same v w = untouched w ≡ untouched v

  abbrev pub advanced : TxWorld fl.Double → TxWorld fl.Double
  advanced w = record w { outcomes = later_outcomes w.outcomes }

  -- How a call may end: it returns, it has failed without effect, or with it.
  abbrev pub Ends :
      {A : Type 0}
      → Error
      → A × TxWorld fl.Double
      → TxWorld fl.Double
      → Result A × TxWorld fl.Double
      → Type 0
  Ends e r w x = (x ≡ (ok r.0, r.1)) ⊎ ((x ≡ (err e, w)) ⊎ (x ≡ (err e, r.1)))

  respond-Ends :
      {A : Type 0} (o : Outcome) (e : Error) (f : TxWorld fl.Double → A × TxWorld fl.Double)
      (w : TxWorld fl.Double)
      → Ends e (f w) w (respond o e f w)
  respond-Ends done e f w = inl refl
  respond-Ends refused e f w = inr (inl refl)
  respond-Ends lost e f w = inr (inr refl)

  pub call-Ends :
      {A : Type 0} (e : Error) (f : TxWorld fl.Double → A × TxWorld fl.Double)
      (w : TxWorld fl.Double)
      → Ends e (f (advanced w)) (advanced w) (call fl e f w)
  unfolding call
  call-Ends e f w = respond-Ends (next_outcome w.outcomes) e f (advanced w)

  get_fee-eq :
      (w : TxWorld fl.Double)
      → (fee : fl.Double) × (v : TxWorld fl.Double) × (get_fee fl w ≡ (ok fee, v))
        × Same w v
        × (v.transactions ≡ w.transactions)
  unfolding get_fee set_last_known gets pure
  get_fee-eq w = elim (call-Ends rpc_error (λ w. (w.feerate, w)) w) [
    | inl e ↦
        (_, _, try_catch-ok _ _ (>>=-ok _ _ e ∙ >>=-ok (set_last_known fl _) _ refl), refl, refl)
    | inr (inl e) ↦ (_, _, try_catch-err _ _ (>>=-err _ _ e), refl, refl)
    | inr (inr e) ↦ (_, _, try_catch-err _ _ (>>=-err _ _ e), refl, refl)
  ]

  -- The transaction of a result has been sent, on top of those before.
  pub record IsSent (env : TxEnv fl.Double) (hash : Option String)
      (before after : List (AnchorTx fl.Double)) (r : TxResult fl.Double) : Type 0 where
    pub tx : AnchorTx fl.Double
    pub transactions : after ≡ tx ∷ before
    pub same_hash : tx.hash ≡ hash
    pub tx_id : r.tx_id ≡ env.tx_id (length before) hash tx.btc_fee
    pub tx_hex : r.tx_hex ≡ env.tx_hex (length before) hash tx.btc_fee
    pub fee_paid : r.fee_paid_satoshi ≡ tx.fee_total_satoshi

  module _ (env : TxEnv fl.Double) (hash : Option String) (w : TxWorld fl.Double) where
    abbrev pub SendEnds : Exec (TxWorld fl.Double) (TxResult fl.Double) → Type 0
    SendEnds m =
        ((r : TxResult fl.Double) × (v : TxWorld fl.Double) × (m w ≡ (ok r, v))
          × Same w v
          × IsSent env hash w.transactions v.transactions r)
        ⊎ ((v : TxWorld fl.Double) × (m w ≡ (err rpc_error, v)) × Same w v)

    send_op_return-Ends : (fee : fl.Double) → SendEnds (send_op_return fl env hash fee)
    unfolding send_op_return
    send_op_return-Ends fee = elim (call-Ends rpc_error _ w) [
      | inl e ↦ inl (
        _,
        _,
        e,
        refl,
        record {
          tx = _;
          transactions = refl;
          same_hash = refl;
          tx_id = refl;
          tx_hex = refl;
          fee_paid = refl;
        },
      )
      | inr (inl e) ↦ inr (_, e, refl)
      | inr (inr e) ↦ inr (_, e, refl)
    ]

  pub send_tx_to_btc-Ends :
      (env : TxEnv fl.Double) (hash : Option String) (w : TxWorld fl.Double)
      → SendEnds env hash w (send_tx_to_btc fl env hash)
  unfolding send_tx_to_btc
  send_tx_to_btc-Ends env hash w =
      let (fee, v, e, same, txs) = get_fee-eq w in
      elim (send_op_return-Ends env hash v (final_fee fl env.btc_max_fee_sat_per_byte fee)) [
        | inl (r, u, e', same', k) ↦ inl (
          r,
          u,
          >>=-ok _ _ e ∙ e',
          same' ∙ same,
          subst (λ l. IsSent env hash l u.transactions r) txs k,
        )
        | inr (u, e', same') ↦ inr (u, >>=-ok _ _ e ∙ e', same' ∙ same)
      ]
