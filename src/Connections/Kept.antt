-- ===== src/Connections/Kept.antt =====
-- node-lib/lib/connections.js: what the callbacks keep of a service's variables holds after any events.
use chainpoint_core_erc.Prelude.{
  ℕ, ◌≡◌, sym, ◌∙◌, Bool, true, false, some, List, [], ◌∷◌, ◌++◌, if◌then◌else◌, append_assoc,
  append-nil,
}
use chainpoint_core_erc.Connections.{open_postgres_from, open_postgres_connection}
use chainpoint_core_erc.Connections.Events.{
  System, Callbacks, open_redis_connection, begin_rmq_connection, rmq_connected, Step, redis_ready,
  redis_error, redis_timeout, connection, failed_attempt, unused_closing, closing, rmq_timeout,
  Reach, here, next,
}

-- Every callback keeps the property.
pub record KeepsVars {V : Type 0} (cb : Callbacks V) (P : V → Type 0) : Type 0 where
  pub on_ready : (i : ℕ) (s : System V) → P s.vars → P (cb.on_ready i s).vars
  pub on_error : (s : System V) → P s.vars → P (cb.on_error s).vars
  pub on_init : (c : ℕ) (s : System V) → P s.vars → P (cb.on_init c s).vars
  pub on_close : (s : System V) → P s.vars → P (cb.on_close s).vars
  pub on_started : (s : System V) → P s.vars → P (cb.on_started s).vars

module _ {V : Type 0} (cb : Callbacks V) (P : V → Type 0) (laws : KeepsVars cb P) where
  after_start :
      (starting : Bool) (s : System V) → P s.vars → P (if starting then cb.on_started s else s).vars
  after_start true s p = laws.on_started s p
  after_start false s p = p

  Step-KeepsVars : {s t : System V} → Step cb s t → P s.vars → P t.vars
  unfolding open_redis_connection begin_rmq_connection rmq_connected
  Step-KeepsVars {s} (redis_ready i h) p = laws.on_ready i s p
  Step-KeepsVars {s} (redis_error i h) p = laws.on_error s p
  Step-KeepsVars {s} (redis_timeout h) p = p
  Step-KeepsVars {s} (connection h) p = after_start s.starting _ (laws.on_init s.rmq_made _ p)
  Step-KeepsVars {s} (closing before after c h) p =
      laws.on_close (record s { rmq_open = before ++ after }) p
  Step-KeepsVars {s} (failed_attempt h) p = p
  Step-KeepsVars {s} (unused_closing before after c h) p = p
  Step-KeepsVars {s} (rmq_timeout h) p = p

  pub Reach-KeepsVars : {s t : System V} → Reach cb s t → P s.vars → P t.vars
  Reach-KeepsVars here p = p
  Reach-KeepsVars (next r s) p = Step-KeepsVars s (Reach-KeepsVars r p)

module _ {M : Type 0} (models : List M) where
  open_postgres_from-front :
      (attempts : List Bool) (synched ms : List M)
      → open_postgres_from models synched attempts ≡ some ms
      → (rest : List M) × (ms ≡ synched ++ models ++ rest)
  unfolding open_postgres_from
  open_postgres_from-front [] synched ms h = absurd (cc h)
  open_postgres_from-front (true ∷ attempts) synched ms h =
      let same : ms ≡ synched ++ models = cc h in ([], same ∙ sym (append-nil (synched ++ models)))
  open_postgres_from-front (false ∷ attempts) synched ms h =
      let (rest, e) = open_postgres_from-front attempts (synched ++ models) ms h in
      (models ++ rest, e ∙ append_assoc (synched ++ models) models rest)

  -- The list that the loop gives begins with the models, however many attempts have failed.
  pub open_postgres_connection-front :
      (attempts : List Bool) (ms : List M)
      → open_postgres_connection models attempts ≡ some ms
      → (rest : List M) × (ms ≡ models ++ rest)
  unfolding open_postgres_connection
  open_postgres_connection-front attempts ms h = open_postgres_from-front attempts [] ms h
