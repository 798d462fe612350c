-- ===== src/Tests/Whole.antt =====
-- The services together.
use chainpoint_core_erc.Prelude.{refl, true, some, [], ◌∷◌}
use chainpoint_core_erc.World.{World, refused}
use chainpoint_core_erc.CachedState.Tables.{find_one}
use chainpoint_core_erc.Tests.Data.{agg_row, cal_message, agg_world, cal_content}
use chainpoint_core_erc.Tests.Gen.{env, toy}
use chainpoint_core_erc.StateService.{process_message}
use chainpoint_core_erc.StateService.Messages.{parsed, Content}
use chainpoint_core_erc.Pipeline.Consistent.{IsConsistent}
use chainpoint_core_erc.Pipeline.Run.{
  Reach, here, next, failing, passing, state_message, Reach-IsConsistent,
}
use chainpoint_core_erc.Pipeline.Whole.{IsServed, calendar_message-IsServed}

-- The world in which the aggregation is stored, and nothing of the calendar.
agg_world-IsConsistent : IsConsistent cal_content agg_world
agg_world-IsConsistent = record {
  distinct = refl;
  keyed = tt;
  coherent = record { rows = tt; cache = tt };
}

-- The calendar message arrives while the database refuses the first call, and is nacked.
abbrev refusing : World
refusing = record agg_world { outcomes = refused ∷ [] }

abbrev refused_once : World
refused_once =
    (process_message (some (record { tag = 1; content = Content.cal_batch (parsed cal_message) }))
      refusing).1

refused_run : Reach env cal_content agg_world refused_once
refused_run = next (next here (failing (refused ∷ []))) (state_message _ (refl, tt))

Reach-IsConsistent_example : IsConsistent cal_content refused_once
Reach-IsConsistent_example =
    Reach-IsConsistent env cal_content (λ id. refl) refused_run agg_world-IsConsistent

-- A second later.
abbrev later_world : World
later_world = record agg_world { clock = 1001000 }

later_run : Reach env cal_content agg_world later_world
later_run = next here (passing 1000)

calendar_message-IsServed_example :
    IsServed toy env (λ id. true) 3 cal_message agg_row (cal_content "g1") "sha-256" later_world
unfolding find_one
calendar_message-IsServed_example =
    calendar_message-IsServed toy env (λ id. true) cal_content 3 cal_message agg_row "sha-256"
      "sha-256" later_world (λ id. refl) agg_world-IsConsistent later_run refl refl (refl, tt) refl
      refl refl refl refl refl
