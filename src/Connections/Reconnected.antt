-- ===== src/Connections/Reconnected.antt =====
-- node-lib/lib/connections.js: a service is connected to RabbitMQ once, or on the way to it once.
use chainpoint_core_erc.Prelude.{
  ℕ, ◌+◌, ◌-◌, ◌<◌, ◌≡◌, refl, sym, ap, ◌∙◌, ◌⊎◌, inl, inr, Bool, true, false, Option, none, some,
  List, [], ◌∷◌, ◌++◌, if◌then◌else◌, arith,
}
use chainpoint_core_erc.Connections.Events.{
  System, Callbacks, open_redis_connection, begin_rmq_connection, rmq_connected, Step, redis_ready,
  redis_error, redis_timeout, connection, failed_attempt, unused_closing, closing, rmq_timeout,
  Reach, here, next,
}

-- The parts of a system that tell of RabbitMQ; `channel` is the variable in which it keeps the channel.
pub record RmqView : Type 0 where
  pub channel : Option ℕ
  pub loops : ℕ
  pub open_ones : List ℕ
  pub timers : ℕ

abbrev pub view : {V : Type 0} → (V → Option ℕ) → System V → RmqView
view channel s = record {
  channel = channel s.vars;
  loops = s.rmq_loops;
  open_ones = s.rmq_open;
  timers = s.rmq_timers;
}

-- What the callbacks of a service owe: a new connection gives the channel, and a closed one takes it
-- and sets one timer.
pub record IsReconnecting {V : Type 0} (cb : Callbacks V) (channel : V → Option ℕ) : Type 0 where
  pub on_ready : (i : ℕ) (s : System V) → view channel (cb.on_ready i s) ≡ view channel s
  pub on_error : (s : System V) → view channel (cb.on_error s) ≡ view channel s
  pub on_started : (s : System V) → view channel (cb.on_started s) ≡ view channel s
  pub on_init :
      (c : ℕ) (s : System V)
      → view channel (cb.on_init c s) ≡ record (view channel s) { channel = some c }
  pub on_close :
      (s : System V)
      → view channel (cb.on_close s)
        ≡ record (view channel s) { channel = none; timers = s.rmq_timers + 1 }

-- Either one connection is in use, and the service holds its channel, or none is, the service holds no
-- channel, and one loop or one timer is on the way to the next.
pub record IsUnconnected {V : Type 0} (channel : V → Option ℕ) (s : System V) : Type 0 where
  pub no_channel : channel s.vars ≡ none
  pub no_connection : s.rmq_open ≡ []
  pub on_the_way : s.rmq_loops + s.rmq_timers ≡ 1

pub record IsConnected {V : Type 0} (channel : V → Option ℕ) (s : System V) : Type 0 where
  pub it : ℕ
  pub its_channel : channel s.vars ≡ some it
  pub only_connection : s.rmq_open ≡ it ∷ []
  pub no_loop : s.rmq_loops ≡ 0
  pub no_timer : s.rmq_timers ≡ 0

abbrev pub HoldsOne : {V : Type 0} → (V → Option ℕ) → System V → Type 0
HoldsOne channel s = IsUnconnected channel s ⊎ IsConnected channel s

module _ {V : Type 0} (cb : Callbacks V) (channel : V → Option ℕ)
    (laws : IsReconnecting cb channel) where
  same-HoldsOne :
      (s t : System V) → view channel t ≡ view channel s → HoldsOne channel s → HoldsOne channel t
  same-HoldsOne s t e (inl u) = inl (record {
    no_channel = ap (λ (v : RmqView). v.channel) e ∙ u.no_channel;
    no_connection = ap (λ (v : RmqView). v.open_ones) e ∙ u.no_connection;
    on_the_way = ap (λ (v : RmqView). v.loops + v.timers) e ∙ u.on_the_way;
  })
  same-HoldsOne s t e (inr c) = inr (record {
    it = c.it;
    its_channel = ap (λ (v : RmqView). v.channel) e ∙ c.its_channel;
    only_connection = ap (λ (v : RmqView). v.open_ones) e ∙ c.only_connection;
    no_loop = ap (λ (v : RmqView). v.loops) e ∙ c.no_loop;
    no_timer = ap (λ (v : RmqView). v.timers) e ∙ c.no_timer;
  })

  after_start :
      (starting : Bool) (s : System V)
      → HoldsOne channel s
      → HoldsOne channel (if starting then cb.on_started s else s)
  after_start true s p = same-HoldsOne s (cb.on_started s) (laws.on_started s) p
  after_start false s p = p

  -- A new connection, where there was none.
  opened-HoldsOne :
      (s t : System V)
      → 0 < s.rmq_loops
      → t.rmq_loops ≡ s.rmq_loops - 1
      → t.rmq_open ≡ s.rmq_made ∷ s.rmq_open
      → t.rmq_timers ≡ s.rmq_timers
      → HoldsOne channel s
      → HoldsOne channel (cb.on_init s.rmq_made t)
  opened-HoldsOne s t h l o m (inr c) = absurd (omega (arith, c.no_loop))
  opened-HoldsOne s t h l o m (inl u) =
      let e = laws.on_init s.rmq_made t in
      inr (record {
        it = s.rmq_made;
        its_channel = ap (λ (v : RmqView). v.channel) e;
        only_connection =
            ap (λ (v : RmqView). v.open_ones) e ∙ o ∙ ap (λ cs. s.rmq_made ∷ cs) u.no_connection;
        no_loop = ap (λ (v : RmqView). v.loops) e ∙ omega (arith, u.on_the_way);
        no_timer = ap (λ (v : RmqView). v.timers) e ∙ omega (arith, u.on_the_way);
      })

  only_one :
      (before after : List ℕ) (c it : ℕ) → it ∷ [] ≡ before ++ c ∷ after → before ++ after ≡ []
  only_one [] [] c it h = refl
  only_one [] (x ∷ after) c it h = absurd (cc h)
  only_one (b ∷ []) after c it h = absurd (cc h)
  only_one (b ∷ x ∷ before) after c it h = absurd (cc h)

  not_none : (before after : List ℕ) (c : ℕ) → ¬ ([] ≡ before ++ c ∷ after)
  not_none [] after c = λ h. cc
  not_none (b ∷ before) after c = λ h. cc

  closed-HoldsOne :
      (s : System V) (before after : List ℕ) (c : ℕ)
      → s.rmq_open ≡ before ++ c ∷ after
      → HoldsOne channel s
      → HoldsOne channel (cb.on_close (record s { rmq_open = before ++ after }))
  closed-HoldsOne s before after c h (inl u) =
      absurd (not_none before after c (sym u.no_connection ∙ h))
  closed-HoldsOne s before after c h (inr p) =
      let t = record s { rmq_open = before ++ after } in
      let e = laws.on_close t in
      inl (record {
        no_channel = ap (λ (v : RmqView). v.channel) e;
        no_connection =
            ap (λ (v : RmqView). v.open_ones) e
            ∙ only_one before after c p.it (sym p.only_connection ∙ h);
        on_the_way = ap (λ (v : RmqView). v.loops + v.timers) e ∙ rw (p.no_loop, p.no_timer) refl;
      })

  again-HoldsOne :
      (s : System V)
      → 0 < s.rmq_timers
      → HoldsOne channel s
      → HoldsOne channel (record s { rmq_loops = s.rmq_loops + 1; rmq_timers = s.rmq_timers - 1 })
  again-HoldsOne s h (inr c) = absurd (omega (arith, c.no_timer))
  again-HoldsOne s h (inl u) = inl (record {
    no_channel = u.no_channel;
    no_connection = u.no_connection;
    on_the_way = omega (arith, u.on_the_way);
  })

  Step-HoldsOne : {s t : System V} → Step cb s t → HoldsOne channel s → HoldsOne channel t
  unfolding open_redis_connection begin_rmq_connection rmq_connected
  Step-HoldsOne {s} (redis_ready i h) p = same-HoldsOne s _ (laws.on_ready i s) p
  Step-HoldsOne {s} (redis_error i h) p = same-HoldsOne s _ (laws.on_error s) p
  Step-HoldsOne {s} (redis_timeout h) p = same-HoldsOne s _ refl p
  Step-HoldsOne {s} (connection h) p =
      after_start s.starting _ (opened-HoldsOne s _ h refl refl refl p)
  Step-HoldsOne {s} (closing before after c h) p = closed-HoldsOne s before after c h p
  Step-HoldsOne {s} (failed_attempt h) p = same-HoldsOne s _ refl p
  Step-HoldsOne {s} (unused_closing before after c h) p = same-HoldsOne s _ refl p
  Step-HoldsOne {s} (rmq_timeout h) p = again-HoldsOne s h p

  pub Reach-HoldsOne : {s t : System V} → Reach cb s t → HoldsOne channel s → HoldsOne channel t
  Reach-HoldsOne here p = p
  Reach-HoldsOne (next r s) p = Step-HoldsOne s (Reach-HoldsOne r p)
