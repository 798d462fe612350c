-- ===== src/Tests/Command.antt =====
-- The commands of cli/ at concrete inputs: a `.env` that does not exist yet.
use chainpoint_core_erc.Prelude.{refl, ◌≡◌, none, some, [], ◌∷◌}
use chainpoint_core_erc.Exec.{gets, pure, throw, try_catch, ◌>>=◌}
use chainpoint_core_erc.Cli.{
  undefined, approve_call, stake_core_call, CliWorld, CliEnv, execute, assign, write_env,
  parse_file, write_settings, update_or_create_env, call_contract, register_main,
}
use chainpoint_core_erc.Cli.Registered.{Stakes, register_main-Stakes}

abbrev cli_env : CliEnv
cli_env = record {
  parse = λ _. [];
  stringify = λ _. "NETWORK=mainnet";
  home = "/home/core";
  create_wallet = "0x01";
  address_of = λ _. some "0x02";
}

abbrev before_env : CliWorld
before_env = record {
  outcomes = [];
  env_file = none;
  sample_file = some "NETWORK=mainnet";
  commands = [];
  contract_calls = [];
}

register_main_stakes_undefined :
    (register_main cli_env before_env).1.contract_calls
    ≡ stake_core_call undefined ∷ approve_call ∷ []
unfolding execute assign write_env parse_file write_settings update_or_create_env call_contract
    register_main gets pure throw try_catch ◌>>=◌
register_main_stakes_undefined = refl

register_main-Stakes_example : Stakes [] none (register_main cli_env before_env).1.contract_calls
register_main-Stakes_example = register_main-Stakes cli_env before_env
