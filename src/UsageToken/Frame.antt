-- ===== src/UsageToken/Frame.antt =====
-- The checks of a token touch neither the clock, nor the active tokens, nor what was broadcast; nor
-- does a refresh.
use chainpoint_core_erc.Prelude.{◌≡◌, refl, ap, ◌∙◌, [], String}
use chainpoint_core_erc.Exec.Keeps.{Preorder, Keeps}
use chainpoint_core_erc.World.Calls.{later_outcomes}
use chainpoint_core_erc.UsageToken.State.{Decoded, ApiWorld}
use chainpoint_core_erc.UsageToken.Calls.{called}
use chainpoint_core_erc.UsageToken.TokenUtils.{TokenEnv, verify_sig}
use chainpoint_core_erc.UsageToken.Silent.{IsSilent, verify_sig-Keeps}

pub record SameTokens (v w : ApiWorld) : Type 0 where
  pub clock : w.clock ≡ v.clock
  pub active_tokens : w.active_tokens ≡ v.active_tokens
  pub broadcasts : w.broadcasts ≡ v.broadcasts
  pub redis : w.redis ≡ v.redis
  pub quiet : v.outcomes ≡ [] → w.outcomes ≡ []

-- `w` differs from `v` in other fields only.
pub SameTokens-refl : (v : ApiWorld) → SameTokens v v
SameTokens-refl v = record {
  clock = refl;
  active_tokens = refl;
  broadcasts = refl;
  redis = refl;
  quiet = λ h. h;
}

pub called-SameTokens : (v : ApiWorld) → SameTokens v (called v)
called-SameTokens v = record {
  clock = refl;
  active_tokens = refl;
  broadcasts = refl;
  redis = refl;
  quiet = λ h. ap later_outcomes h;
}

abbrev pub same_tokens : Preorder ApiWorld
same_tokens = record {
  rel = SameTokens;
  rel_refl = SameTokens-refl;
  rel_trans = λ s t u p q. record {
    clock = q.clock ∙ p.clock;
    active_tokens = q.active_tokens ∙ p.active_tokens;
    broadcasts = q.broadcasts ∙ p.broadcasts;
    redis = q.redis ∙ p.redis;
    quiet = λ h. q.quiet (p.quiet h);
  };
}

abbrev pub tokens_silent : IsSilent same_tokens
tokens_silent = record {
  outcomes = called-SameTokens;
  token_hashes = λ w _. record {
    clock = refl;
    active_tokens = refl;
    broadcasts = refl;
    redis = refl;
    quiet = λ h. h;
  };
  known_iss = λ w _. record {
    clock = refl;
    active_tokens = refl;
    broadcasts = refl;
    redis = refl;
    quiet = λ h. h;
  };
  jwks = λ w _. record {
    clock = refl;
    active_tokens = refl;
    broadcasts = refl;
    redis = refl;
    quiet = λ h. h;
  };
  core_id = λ w _. record {
    clock = refl;
    active_tokens = refl;
    broadcasts = refl;
    redis = refl;
    quiet = λ h. h;
  };
  uuids = λ w _. record {
    clock = refl;
    active_tokens = refl;
    broadcasts = refl;
    redis = refl;
    quiet = λ h. h;
  };
}

pub verify_sig-SameTokens :
    (env : TokenEnv) (t : String) (d : Decoded) → Keeps same_tokens (verify_sig env t d)
verify_sig-SameTokens = verify_sig-Keeps tokens_silent
