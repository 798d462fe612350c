-- ===== src/Tests/Env.antt =====
-- The settings at concrete inputs.
use chainpoint_core_erc.Prelude.{◌≡◌, map}
use chainpoint_core_erc.Prelude.Lists.{unique}
use chainpoint_core_erc.ParseEnv.{btc_tx, definitions}
use chainpoint_core_erc.ParseEnv.Defaults.{definitions-unique}

definitions-unique_example :
    let names = map (λ d. d.name) (definitions btc_tx) in unique names ≡ names
definitions-unique_example = definitions-unique btc_tx
