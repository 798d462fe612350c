-- ===== src/Hashes/Frame.antt =====
-- The token checks of a submission publish nothing, and leave the clock and the channel alone.
use chainpoint_core_erc.Prelude.{◌≡◌, refl, ◌∙◌, Option, String, List}
use chainpoint_core_erc.Exec.{db_error, publish_error}
use chainpoint_core_erc.Exec.Keeps.{Preorder, Keeps, keeps_rules}
use chainpoint_core_erc.UsageToken.State.{ApiWorld, ActiveToken}
use chainpoint_core_erc.UsageToken.TokenUtils.{TokenEnv, broadcast_core_tx, write_active_token}
use chainpoint_core_erc.UsageToken.Calls.{execute}
use chainpoint_core_erc.UsageToken.Silent.{IsSilent, Keeps-execute, get_cached_core_id-Keeps}
use chainpoint_core_erc.Hashes.{try_write, try_broadcast}

pub record SamePublished (v w : ApiWorld) : Type 0 where
  pub clock : w.clock ≡ v.clock
  pub channel : w.channel ≡ v.channel
  pub published : w.published ≡ v.published

pub SamePublished-refl : (v : ApiWorld) → SamePublished v v
SamePublished-refl v = record { clock = refl; channel = refl; published = refl }

abbrev pub same_published : Preorder ApiWorld
same_published = record {
  rel = SamePublished;
  rel_refl = SamePublished-refl;
  rel_trans = λ s t u p q. record {
    clock = q.clock ∙ p.clock;
    channel = q.channel ∙ p.channel;
    published = q.published ∙ p.published;
  };
}

abbrev pub published_silent : IsSilent same_published
published_silent = record {
  outcomes = λ w. record { clock = refl; channel = refl; published = refl };
  token_hashes = λ w _. record { clock = refl; channel = refl; published = refl };
  known_iss = λ w _. record { clock = refl; channel = refl; published = refl };
  jwks = λ w _. record { clock = refl; channel = refl; published = refl };
  core_id = λ w _. record { clock = refl; channel = refl; published = refl };
  uuids = λ w _. record { clock = refl; channel = refl; published = refl };
}

Keeps-active_tokens :
    (g : ApiWorld → List ActiveToken)
    → Keeps same_published (execute db_error (λ w. record w { active_tokens = g w }))
Keeps-active_tokens g =
    Keeps-execute published_silent db_error (λ w. record w { active_tokens = g w })
      (λ w. record { clock = refl; channel = refl; published = refl })

write_active_token-SamePublished : (a : ActiveToken) → Keeps same_published (write_active_token a)
unfolding write_active_token
write_active_token-SamePublished a = search (keeps_rules, Keeps-active_tokens)

pub try_write-SamePublished : (ip t : String) → Keeps same_published (try_write ip t)
unfolding try_write
try_write-SamePublished ip t = search (keeps_rules, write_active_token-SamePublished)

broadcast_core_tx-SamePublished :
    (core_id : Option String) (ip t : String)
    → Keeps same_published (broadcast_core_tx core_id ip t)
unfolding broadcast_core_tx
broadcast_core_tx-SamePublished core_id ip t =
    Keeps-execute published_silent publish_error _
      (λ w. record { clock = refl; channel = refl; published = refl })

pub try_broadcast-SamePublished :
    (env : TokenEnv) (ip t : String) → Keeps same_published (try_broadcast env ip t)
unfolding try_broadcast
try_broadcast-SamePublished env ip t =
    search (keeps_rules, get_cached_core_id-Keeps published_silent, broadcast_core_tx-SamePublished)
      depth 8
