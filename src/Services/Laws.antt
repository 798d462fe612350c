-- ===== src/Services/Laws.antt =====
-- The callbacks of each service keep what node-lib/lib/connections.js relies on.
use chainpoint_core_erc.Prelude.{
  ℕ, ◌≡◌, refl, sym, ap, inl, inr, true, none, some, String, eq_refl, append-nil,
}
use chainpoint_core_erc.Prelude.Lists.{includes}
use chainpoint_core_erc.Connections.Events.{RmqArguments, start_intervals}
use chainpoint_core_erc.Connections.Reconnected.{IsReconnecting}
use chainpoint_core_erc.Connections.Timed.{IsTimed}
use chainpoint_core_erc.Connections.Kept.{KeepsVars}
use chainpoint_core_erc.StateService.Links as StateLinks
use chainpoint_core_erc.GenService.Links as GenLinks
use chainpoint_core_erc.BtcMon.Links as MonLinks
use chainpoint_core_erc.BtcTx.Links as TxLinks
use chainpoint_core_erc.ApiServer.Links as ApiLinks
use chainpoint_core_erc.Services.{
  Service, proof_state, proof_gen, btc_mon, btc_tx, api, Frequencies, callbacks_of, channel_of,
  rmq_arguments_of, times_of, IsWired,
}

pub callbacks-IsReconnecting :
    (f : Frequencies) (k : Service) → IsReconnecting (callbacks_of f k) (channel_of k)
unfolding StateLinks.callbacks StateLinks.on_redis_ready StateLinks.on_redis_error
    StateLinks.on_rmq_init StateLinks.on_rmq_close StateLinks.service_intervals GenLinks.callbacks
    GenLinks.on_redis_ready GenLinks.on_redis_error GenLinks.on_rmq_init GenLinks.on_rmq_close
    GenLinks.service_intervals MonLinks.callbacks MonLinks.on_redis_ready MonLinks.on_redis_error
    MonLinks.on_rmq_init MonLinks.on_rmq_close MonLinks.service_intervals TxLinks.callbacks
    TxLinks.on_rmq_init TxLinks.on_rmq_close ApiLinks.callbacks ApiLinks.on_redis_ready
    ApiLinks.on_redis_error ApiLinks.on_rmq_init ApiLinks.on_rmq_close start_intervals
callbacks-IsReconnecting f proof_state = record {
  on_ready = λ i s. refl;
  on_error = λ s. refl;
  on_started = λ s. refl;
  on_init = λ c s. refl;
  on_close = λ s. refl;
}
callbacks-IsReconnecting f proof_gen = record {
  on_ready = λ i s. refl;
  on_error = λ s. refl;
  on_started = λ s. refl;
  on_init = λ c s. refl;
  on_close = λ s. refl;
}
callbacks-IsReconnecting f btc_mon = record {
  on_ready = λ i s. refl;
  on_error = λ s. refl;
  on_started = λ s. refl;
  on_init = λ c s. refl;
  on_close = λ s. refl;
}
callbacks-IsReconnecting f btc_tx = record {
  on_ready = λ i s. refl;
  on_error = λ s. refl;
  on_started = λ s. refl;
  on_init = λ c s. refl;
  on_close = λ s. refl;
}
callbacks-IsReconnecting f api = record {
  on_ready = λ i s. refl;
  on_error = λ s. refl;
  on_started = λ s. refl;
  on_init = λ c s. refl;
  on_close = λ s. refl;
}

pub callbacks-IsTimed : (f : Frequencies) (k : Service) → IsTimed (callbacks_of f k) (times_of f k)
unfolding StateLinks.callbacks StateLinks.on_redis_ready StateLinks.on_redis_error
    StateLinks.on_rmq_init StateLinks.on_rmq_close StateLinks.service_intervals GenLinks.callbacks
    GenLinks.on_redis_ready GenLinks.on_redis_error GenLinks.on_rmq_init GenLinks.on_rmq_close
    GenLinks.service_intervals MonLinks.callbacks MonLinks.on_redis_ready MonLinks.on_redis_error
    MonLinks.on_rmq_init MonLinks.on_rmq_close MonLinks.service_intervals TxLinks.callbacks
    TxLinks.on_rmq_init TxLinks.on_rmq_close ApiLinks.callbacks ApiLinks.on_redis_ready
    ApiLinks.on_redis_error ApiLinks.on_rmq_init ApiLinks.on_rmq_close start_intervals
callbacks-IsTimed f proof_state = record {
  on_ready = λ i s. refl;
  on_error = λ s. refl;
  on_init = λ c s. refl;
  on_close = λ s. refl;
  on_started = λ s. refl;
}
callbacks-IsTimed f proof_gen = record {
  on_ready = λ i s. refl;
  on_error = λ s. refl;
  on_init = λ c s. refl;
  on_close = λ s. refl;
  on_started = λ s. refl;
}
callbacks-IsTimed f btc_mon = record {
  on_ready = λ i s. refl;
  on_error = λ s. refl;
  on_init = λ c s. refl;
  on_close = λ s. refl;
  on_started = λ s. refl;
}
callbacks-IsTimed f btc_tx = record {
  on_ready = λ i s. refl;
  on_error = λ s. refl;
  on_init = λ c s. refl;
  on_close = λ s. refl;
  on_started = λ s. ap (λ l. (s.starting, l)) (sym (append-nil s.intervals));
}
callbacks-IsTimed f api = record {
  on_ready = λ i s. refl;
  on_error = λ s. refl;
  on_init = λ c s. refl;
  on_close = λ s. refl;
  on_started = λ s. ap (λ l. (s.starting, l)) (sym (append-nil s.intervals));
}

pub callbacks-KeepsVars : (f : Frequencies) (k : Service) → KeepsVars (callbacks_of f k) (IsWired k)
unfolding StateLinks.callbacks StateLinks.on_redis_ready StateLinks.on_redis_error
    StateLinks.on_rmq_init StateLinks.on_rmq_close StateLinks.service_intervals GenLinks.callbacks
    GenLinks.on_redis_ready GenLinks.on_redis_error GenLinks.on_rmq_init GenLinks.on_rmq_close
    GenLinks.service_intervals MonLinks.callbacks MonLinks.on_redis_ready MonLinks.on_redis_error
    MonLinks.on_rmq_init MonLinks.on_rmq_close MonLinks.service_intervals TxLinks.callbacks
    TxLinks.on_rmq_init TxLinks.on_rmq_close ApiLinks.callbacks ApiLinks.on_redis_ready
    ApiLinks.on_redis_error ApiLinks.on_rmq_init ApiLinks.on_rmq_close start_intervals
callbacks-KeepsVars f proof_state = record {
  on_ready = λ i s p. (refl, p.1);
  on_error = λ s p. (refl, p.1);
  on_init = λ c s p. p;
  on_close = λ s p. p;
  on_started = λ s p. p;
}
callbacks-KeepsVars f proof_gen = record {
  on_ready = λ i s p. (refl, p.1, p.2);
  on_error = λ s p. (refl, p.1, p.2);
  on_init = λ c s p. p;
  on_close = λ s p. p;
  on_started = λ s p. p;
}
callbacks-KeepsVars f btc_mon = record {
  on_ready = λ i s p. p;
  on_error = λ s p. p;
  on_init = λ c s p. p;
  on_close = λ s p. p;
  on_started = λ s p. p;
}
callbacks-KeepsVars f btc_tx = record {
  on_ready = λ i s p. p;
  on_error = λ s p. p;
  on_init = λ c s p. p;
  on_close = λ s p. p;
  on_started = λ s p. p;
}
callbacks-KeepsVars f api = record {
  on_ready = λ i s p. (inr refl, p.1, p.2, p.3, p.4);
  on_error = λ s p. (inl refl, p.1, p.2, p.3, p.4);
  on_init = λ c s p. p;
  on_close = λ s p. p;
  on_started = λ s p. p;
}

-- The queue that is consumed is one of those that are asserted.
abbrev IsAsserted : RmqArguments → Type 0
IsAsserted a = elim a.consume_queue [ none ↦ Unit | some q ↦ includes q a.queues ≡ true ]

rmq_arguments_of-IsAsserted :
    (setting : String → String) (n : ℕ) (k : Service) → IsAsserted (rmq_arguments_of setting n k)
unfolding StateLinks.rmq_arguments GenLinks.rmq_arguments MonLinks.rmq_arguments
    TxLinks.rmq_arguments ApiLinks.rmq_arguments
rmq_arguments_of-IsAsserted setting n proof_state =
    rw (eq_refl (setting "RMQ_WORK_IN_STATE_QUEUE")) refl
rmq_arguments_of-IsAsserted setting n proof_gen =
    rw (eq_refl (setting "RMQ_WORK_IN_GEN_QUEUE")) refl
rmq_arguments_of-IsAsserted setting n btc_mon =
    rw (eq_refl (setting "RMQ_WORK_IN_BTCMON_QUEUE")) refl
rmq_arguments_of-IsAsserted setting n btc_tx = rw (eq_refl (setting "RMQ_WORK_IN_BTCTX_QUEUE")) refl
rmq_arguments_of-IsAsserted setting n api = tt
