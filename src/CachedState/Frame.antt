-- ===== src/CachedState/Frame.antt =====
-- The proof state functions touch neither the clock, nor the connections, nor what was published,
-- settled or generated.
pub mod Generic
pub mod Tables
pub mod Functions
use chainpoint_core_erc.Prelude.{◌≡◌, refl, ◌∙◌}
use chainpoint_core_erc.Exec.Keeps.{Preorder}
use chainpoint_core_erc.World.{World}
use chainpoint_core_erc.World.Calls.{called}
use chainpoint_core_erc.CachedState.Frame.Generic.{IsFree}

-- Two worlds that differ at most in the proof state tables, their caches and the outcomes to come.
pub record SameOutside (v w : World) : Type 0 where
  pub clock : w.clock ≡ v.clock
  pub redis : w.redis ≡ v.redis
  pub channel : w.channel ≡ v.channel
  pub sent : w.sent ≡ v.sent
  pub settled : w.settled ≡ v.settled
  pub proofs : w.proofs ≡ v.proofs

pub SameOutside-refl : (w : World) → SameOutside w w
SameOutside-refl w = record {
  clock = refl;
  redis = refl;
  channel = refl;
  sent = refl;
  settled = refl;
  proofs = refl;
}

pub SameOutside-trans : (u v w : World) → SameOutside u v → SameOutside v w → SameOutside u w
SameOutside-trans u v w p q = record {
  clock = q.clock ∙ p.clock;
  redis = q.redis ∙ p.redis;
  channel = q.channel ∙ p.channel;
  sent = q.sent ∙ p.sent;
  settled = q.settled ∙ p.settled;
  proofs = q.proofs ∙ p.proofs;
}

abbrev pub outside : Preorder World
outside = record { rel = SameOutside; rel_refl = SameOutside-refl; rel_trans = SameOutside-trans }

called-SameOutside : (w : World) → SameOutside w (called w)
called-SameOutside w = record {
  clock = refl;
  redis = refl;
  channel = refl;
  sent = refl;
  settled = refl;
  proofs = refl;
}

pub outside-IsFree : IsFree outside
outside-IsFree = record { on_call = called-SameOutside }
