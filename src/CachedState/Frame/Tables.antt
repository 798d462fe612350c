-- ===== src/CachedState/Frame/Tables.antt =====
-- The setters of each proof state table touch nothing outside the proof state.
use chainpoint_core_erc.Prelude.{refl}
use chainpoint_core_erc.CachedState.Cached.{
  cal_table, anchor_btc_agg_table, btctx_table, btchead_table,
}
use chainpoint_core_erc.CachedState.Frame.{outside}
use chainpoint_core_erc.CachedState.Frame.Generic.{IsInside}

pub cal_table-IsInside : IsInside outside cal_table
cal_table-IsInside = record {
  set_rows = λ rs w. record {
    clock = refl;
    redis = refl;
    channel = refl;
    sent = refl;
    settled = refl;
    proofs = refl;
  };
  set_cache = λ es w. record {
    clock = refl;
    redis = refl;
    channel = refl;
    sent = refl;
    settled = refl;
    proofs = refl;
  };
}

pub anchor_btc_agg_table-IsInside : IsInside outside anchor_btc_agg_table
anchor_btc_agg_table-IsInside = record {
  set_rows = λ rs w. record {
    clock = refl;
    redis = refl;
    channel = refl;
    sent = refl;
    settled = refl;
    proofs = refl;
  };
  set_cache = λ es w. record {
    clock = refl;
    redis = refl;
    channel = refl;
    sent = refl;
    settled = refl;
    proofs = refl;
  };
}

pub btctx_table-IsInside : IsInside outside btctx_table
btctx_table-IsInside = record {
  set_rows = λ rs w. record {
    clock = refl;
    redis = refl;
    channel = refl;
    sent = refl;
    settled = refl;
    proofs = refl;
  };
  set_cache = λ es w. record {
    clock = refl;
    redis = refl;
    channel = refl;
    sent = refl;
    settled = refl;
    proofs = refl;
  };
}

pub btchead_table-IsInside : IsInside outside btchead_table
btchead_table-IsInside = record {
  set_rows = λ rs w. record {
    clock = refl;
    redis = refl;
    channel = refl;
    sent = refl;
    settled = refl;
    proofs = refl;
  };
  set_cache = λ es w. record {
    clock = refl;
    redis = refl;
    channel = refl;
    sent = refl;
    settled = refl;
    proofs = refl;
  };
}
