-- ===== src/Tests/Start.antt =====
-- The start of the API at a concrete input: production, on the main network.
use chainpoint_core_erc.Prelude.{◌≡◌, true, false, List, ◌⊎◌}
use chainpoint_core_erc.ApiServer.{Route, Environment, listening, exited, start}
use chainpoint_core_erc.ApiServer.Started.{offers_public, start_ends}

abbrev production : Environment
production = record { development = false; testnet = false }

start_ends_example :
    ((false ≡ true)
      × ((routes : List Route) × (start production false ≡ listening routes)
          × (offers_public routes ≡ true)))
    ⊎ ((false ≡ false) × (start production false ≡ exited))
start_ends_example = start_ends production false
