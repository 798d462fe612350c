-- ===== src/UsageToken/Calls.antt =====
-- External calls of the API service: each takes the next outcome off the state.
use chainpoint_core_erc.Exec.{Error, Exec}
use chainpoint_core_erc.World.Calls.{next_outcome, later_outcomes, respond}
use chainpoint_core_erc.UsageToken.State.{ApiWorld}

abbrev pub called : ApiWorld → ApiWorld
called w = record w { outcomes = later_outcomes w.outcomes }

unfoldable pub query : {A : Type 0} → Error → (ApiWorld → A) → Exec ApiWorld A
query e f w = respond (next_outcome w.outcomes) e (λ v. (f v, v)) (called w)

unfoldable pub execute : Error → (ApiWorld → ApiWorld) → Exec ApiWorld (Unit {0})
execute e f w = respond (next_outcome w.outcomes) e (λ v. (tt, f v)) (called w)
