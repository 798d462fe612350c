-- ===== src/Connections/Timed.antt =====
-- node-lib/lib/connections.js: the intervals of a service are started once, however often it reconnects.
use chainpoint_core_erc.Prelude.{
  ℕ, ◌≡◌, ap, ◌∙◌, ◌⊎◌, inl, inr, Bool, true, false, List, [], ◌++◌, if◌then◌else◌,
}
use chainpoint_core_erc.Connections.Events.{
  System, Callbacks, open_redis_connection, begin_rmq_connection, rmq_connected, Step, redis_ready,
  redis_error, redis_timeout, connection, failed_attempt, unused_closing, closing, rmq_timeout,
  Reach, here, next,
}

-- The parts of a system that tell of its intervals.
abbrev pub times_view : {V : Type 0} → System V → Bool × List ℕ
times_view s = (s.starting, s.intervals)

-- What the callbacks of a service owe, whose start ends with the intervals `times`.
pub record IsTimed {V : Type 0} (cb : Callbacks V) (times : List ℕ) : Type 0 where
  pub on_ready : (i : ℕ) (s : System V) → times_view (cb.on_ready i s) ≡ times_view s
  pub on_error : (s : System V) → times_view (cb.on_error s) ≡ times_view s
  pub on_init : (c : ℕ) (s : System V) → times_view (cb.on_init c s) ≡ times_view s
  pub on_close : (s : System V) → times_view (cb.on_close s) ≡ times_view s
  pub on_started :
      (s : System V) → times_view (cb.on_started s) ≡ (s.starting, s.intervals ++ times)

-- The start still waits and no interval runs, or it has ended and each runs once.
abbrev pub RunsOnce : {V : Type 0} → List ℕ → System V → Type 0
RunsOnce times s =
    ((s.starting ≡ true) × (s.intervals ≡ [])) ⊎ ((s.starting ≡ false) × (s.intervals ≡ times))

module _ {V : Type 0} (cb : Callbacks V) (times : List ℕ) (laws : IsTimed cb times) where
  same-RunsOnce :
      (s t : System V) → times_view t ≡ times_view s → RunsOnce times s → RunsOnce times t
  same-RunsOnce s t e (inl (a, b)) = inl (ap (λ v. v.0) e ∙ a, ap (λ v. v.1) e ∙ b)
  same-RunsOnce s t e (inr (a, b)) = inr (ap (λ v. v.0) e ∙ a, ap (λ v. v.1) e ∙ b)

  -- The first connection ends the start; a later one starts nothing.
  opened-RunsOnce :
      (starting : Bool) (t : System V)
      → t.starting ≡ false
      → ((starting ≡ true) × (t.intervals ≡ [])) ⊎ ((starting ≡ false) × (t.intervals ≡ times))
      → RunsOnce times (if starting then cb.on_started t else t)
  opened-RunsOnce true t e (inl (a, b)) = inr (
    ap (λ v. v.0) (laws.on_started t) ∙ e,
    ap (λ v. v.1) (laws.on_started t) ∙ ap (λ l. l ++ times) b,
  )
  opened-RunsOnce true t e (inr (a, b)) = absurd (cc a)
  opened-RunsOnce false t e (inl (a, b)) = absurd (cc a)
  opened-RunsOnce false t e (inr (a, b)) = inr (e, b)

  connected-RunsOnce :
      (s t : System V)
      → t.starting ≡ false
      → t.intervals ≡ s.intervals
      → RunsOnce times s
      → RunsOnce times (if s.starting then cb.on_started t else t)
  connected-RunsOnce s t e i (inl (a, b)) = opened-RunsOnce s.starting t e (inl (a, i ∙ b))
  connected-RunsOnce s t e i (inr (a, b)) = opened-RunsOnce s.starting t e (inr (a, i ∙ b))

  Step-RunsOnce : {s t : System V} → Step cb s t → RunsOnce times s → RunsOnce times t
  unfolding open_redis_connection begin_rmq_connection rmq_connected
  Step-RunsOnce {s} (redis_ready i h) p = same-RunsOnce s (cb.on_ready i s) (laws.on_ready i s) p
  Step-RunsOnce {s} (redis_error i h) p = same-RunsOnce s (cb.on_error s) (laws.on_error s) p
  Step-RunsOnce {s} (redis_timeout h) p = p
  Step-RunsOnce {s} (connection h) p =
      let opened = laws.on_init s.rmq_made _ in
      connected-RunsOnce s _ (ap (λ v. v.0) opened) (ap (λ v. v.1) opened) p
  Step-RunsOnce {s} (closing before after c h) p =
      let t = record s { rmq_open = before ++ after } in
      same-RunsOnce t (cb.on_close t) (laws.on_close t) p
  Step-RunsOnce {s} (failed_attempt h) p = p
  Step-RunsOnce {s} (unused_closing before after c h) p = p
  Step-RunsOnce {s} (rmq_timeout h) p = p

  pub Reach-RunsOnce : {s t : System V} → Reach cb s t → RunsOnce times s → RunsOnce times t
  Reach-RunsOnce here p = p
  Reach-RunsOnce (next r s) p = Step-RunsOnce s (Reach-RunsOnce r p)
