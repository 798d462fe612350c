-- ===== src/Tests/Tx.antt =====
-- The Bitcoin transaction service at concrete inputs, with numbers of one decimal place.
use chainpoint_core_erc.Prelude.{
  ◌≡◌, refl, ℕ, ◌+◌, ◌*◌, ◌/◌, ltb, not, eqb, true, none, some, [], ◌∷◌, ◌⊎◌, map, arith,
}
use chainpoint_core_erc.Prelude.Lists.{All}
use chainpoint_core_erc.Exec.{ok, pure, gets, try_catch, ◌>>=◌}
use chainpoint_core_erc.World.{ack, nack}
use chainpoint_core_erc.BtcTx.Numbers.{Doubles, IsMonotone}
use chainpoint_core_erc.BtcTx.{
  AnchorJob, TxWorld, TxEnv, call, set_last_known, get_fee, final_fee, fee_total, send_op_return,
  send_tx_to_btc, publish_tx, settle, retry_later, anchor_job, process_incoming_anchor_btc_job,
}
use chainpoint_core_erc.BtcTx.Fee.{IsCapped, process_incoming_anchor_btc_job-IsCapped}
use chainpoint_core_erc.BtcTx.Settled.{
  IsAnnounced, IsTimed, process_incoming_anchor_btc_job_settles,
}
use chainpoint_core_erc.BtcTx.Resent.{twice_delivered, process_incoming_anchor_btc_job_resends}

abbrev tenths : Doubles
tenths = record {
  Double = ℕ;
  of_nat = λ n. n * 10;
  greater = λ x y. ltb y x;
  is_truthy = λ x. not (eqb x 0);
  times = λ x y. x * y / 10;
  ceil = λ x. (x + 9) / 10 * 10;
  fee_extra = 11;
  sat_per_byte = λ x. x;
  to_btc = λ x. x / 100000000;
}

tenths-IsMonotone : IsMonotone tenths
tenths-IsMonotone = record {
  irreflexive = λ x. ground arith;
  ceil_mono = λ x y h. ground arith;
  extra_mono = λ x y h. ground arith;
  bytes_mono = λ x y h. ground arith;
}

abbrev tx_env : TxEnv ℕ
tx_env = record { btc_max_fee_sat_per_byte = 6000; tx_id = λ _ _ _. "id"; tx_hex = λ _ _ _. "hex" }

abbrev anchor : AnchorJob
anchor = record { anchor_btc_agg_root = some "root"; others = "{}" }

-- The providers ask for twice the maximum.
abbrev tx_world : TxWorld ℕ
tx_world = record {
  clock = 1000;
  outcomes = [];
  channel = true;
  feerate = 12000;
  last_known_fee_sat_per_byte = none;
  transactions = [];
  sent = [];
  settled = [];
  retries = [];
}

-- The fee of a byte is above the maximum of 600, which was applied before the tenth was added.
process_incoming_anchor_btc_job_fee :
    map
      (λ t. t.fee_total_satoshi)
      (process_incoming_anchor_btc_job tenths tx_env
        (some (1, some anchor))
        tx_world).1.transactions
    ≡ 660 * 235 * 10 ∷ []
unfolding process_incoming_anchor_btc_job anchor_job send_tx_to_btc get_fee set_last_known
    send_op_return publish_tx settle retry_later call final_fee fee_total try_catch gets pure ◌>>=◌
process_incoming_anchor_btc_job_fee = refl

process_incoming_anchor_btc_job-IsCapped_example :
    All
      (IsCapped tenths tx_env)
      (process_incoming_anchor_btc_job tenths tx_env
        (some (1, some anchor))
        tx_world).1.transactions
process_incoming_anchor_btc_job-IsCapped_example =
    process_incoming_anchor_btc_job-IsCapped tenths tx_env (some (1, some anchor)) tx_world
      tenths-IsMonotone tt

process_incoming_anchor_btc_job_settles_example :
    let w' = (process_incoming_anchor_btc_job tenths tx_env (some (1, some anchor)) tx_world).1 in
    ((process_incoming_anchor_btc_job tenths tx_env (some (1, some anchor)) tx_world).0 ≡ ok tt)
    × (IsAnnounced tenths tx_env 1 anchor tx_world w' ⊎ IsTimed tenths 1 tx_world w')
process_incoming_anchor_btc_job_settles_example =
    process_incoming_anchor_btc_job_settles tenths tx_env 1 anchor tx_world refl

process_incoming_anchor_btc_job_resends_example :
    let w' = twice_delivered tenths tx_env 1 anchor tx_world in
    (map (λ t. t.hash) w'.transactions ≡ some "root" ∷ some "root" ∷ [])
    × (map (λ m. m.job) w'.sent ≡ anchor ∷ [])
    × (w'.settled ≡ ack 1 ∷ nack 1 ∷ [])
process_incoming_anchor_btc_job_resends_example =
    process_incoming_anchor_btc_job_resends tenths tx_env 1 anchor tx_world
