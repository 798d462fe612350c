-- ===== src/World/Calls.antt =====
-- External calls: each takes the next outcome off the world.
use chainpoint_core_erc.Prelude.{List, [], ◌∷◌, if◌then◌else◌}
use chainpoint_core_erc.Exec.{Error, ok, err, type_error, Exec}
use chainpoint_core_erc.World.{World, Outcome, done, refused, lost, Settlement}

abbrev pub next_outcome : List Outcome → Outcome
next_outcome [] = done
next_outcome (o ∷ os) = o

abbrev pub later_outcomes : List Outcome → List Outcome
later_outcomes [] = []
later_outcomes (o ∷ os) = os

-- The world of a call: its outcome is used up.
abbrev pub called : World → World
called w = record w { outcomes = later_outcomes w.outcomes }

-- How a call with the outcome goes, over any state.
abbrev pub respond : {S A : Type 0} → Outcome → Error → (S → A × S) → Exec S A
respond done e f w = let (a, w') = f w in (ok a, w')
respond refused e f w = (err e, w)
respond lost e f w = (err e, (f w).1)

module _ {A : Type 0} where
  -- `await` of a call that returns a value and changes the world, or throws `e`.
  unfoldable pub call : Error → (World → A × World) → Exec World A
  call e f w = respond (next_outcome w.outcomes) e f (called w)

  -- A call that only reads.
  unfoldable pub query : Error → (World → A) → Exec World A
  unfolding call
  query e f = call e (λ w. (f w, w))

-- A call that only writes.
unfoldable pub execute : Error → (World → World) → Exec World (Unit {0})
unfolding call
execute e f = call e (λ w. (tt, f w))

-- `amqpChannel.ack(msg)` and `amqpChannel.nack(msg)`: a method call on null is a TypeError.
unfoldable pub settle : Settlement → Exec World (Unit {0})
settle s w =
    if w.channel then (ok tt, record w { settled = s ∷ w.settled }) else (err type_error, w)
