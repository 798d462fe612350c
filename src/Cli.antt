-- ===== src/Cli.antt =====
-- cli/: the two commands, init.js (init_main) and register.js (register_main), with the scripts
-- 0_swarm_secrets.js, 2_update_env.js and 3_registration.js. What throws and is caught throws
-- `rpc_error` here, and a missing file too.
pub mod Registered
use Prim.Native.String
use chainpoint_core_erc.Prelude.{
  ℕ, Bool, true, false, Option, none, some, String, List, [], ◌∷◌, ◌++◌, ◌==◌, ◌||◌, ltb,
  if◌then◌else◌,
}
use chainpoint_core_erc.Prelude.Lists.{length}
use chainpoint_core_erc.Exec.{
  rpc_error, type_error, Error, Exec, pure, throw, gets, try_catch, ◌>>=◌, ◌>>◌,
}
use chainpoint_core_erc.World.{Outcome}
use chainpoint_core_erc.World.Calls.{next_outcome, later_outcomes, respond}

-- A setting: a text, a choice of yes or no, or one that was not given.
pub data Value : Type 0 where
  text : String → Value
  choice : Bool → Value
  undefined : Value

pub record Pair : Type 0 where
  pub name : String
  pub value : Value

-- The two methods of contracts that are called.
pub data ContractCall : Type 0 where
  approve_call : ContractCall
  stake_core_call : Value → ContractCall

-- `.env` and `.env.sample` by their texts; `commands` and `contract_calls` have the last first.
pub record CliWorld : Type 0 where
  pub outcomes : List Outcome
  pub env_file : Option String
  pub sample_file : Option String
  pub commands : List (List String)
  pub contract_calls : List ContractCall

-- Package envfile (`parse`, `stringify`), the home directory, ethers (`create_wallet` gives a
-- private key), and the address that secp256k1 and keccak derive from a key, where they can.
pub record CliEnv : Type 0 where
  pub parse : String → List Pair
  pub stringify : List Pair → String
  pub home : String
  pub create_wallet : String
  pub address_of : Value → Option String

unfoldable pub execute : (CliWorld → CliWorld) → Exec CliWorld (Unit {0})
execute f w =
    respond (next_outcome w.outcomes) rpc_error (λ v. (tt, f v))
      (record w { outcomes = later_outcomes w.outcomes })

-- `exec(commands)`, which may fail at any of them
unfoldable pub exec_commands : List String → Exec CliWorld (Unit {0})
unfolding execute
exec_commands cs w = execute (λ v. v) (record w { commands = cs ∷ w.commands })

abbrev pub value_of : String → List Pair → Value
value_of name [] = undefined
value_of name (p ∷ ps) = if p.name == name then p.value else value_of name ps

abbrev pub has_name : String → List Pair → Bool
has_name name [] = false
has_name name (p ∷ ps) = (p.name == name) || has_name name ps

-- One assignment of a property: it keeps its place, or comes last.
abbrev pub assign_one : Pair → List Pair → List Pair
assign_one p [] = p ∷ []
assign_one p (q ∷ qs) = if q.name == p.name then p ∷ qs else q ∷ assign_one p qs

-- `Object.assign({}, env, valuePairs)`
unfoldable pub assign : List Pair → List Pair → List Pair
assign env [] = env
assign env (p ∷ ps) = assign (assign_one p env) ps

-- 2_update_env.js

unfoldable pub write_env : String → Exec CliWorld (Unit {0})
write_env s = execute (λ w. record w { env_file = some s })

-- `parseFileSync`, of a text that is there or not
unfoldable pub parse_file : CliEnv → Option String → Exec CliWorld (List Pair)
parse_file env none = throw rpc_error
parse_file env (some s) = do execute (λ w. w); pure (env.parse s)

-- by the text of `.env`, if it exists; the result is none where it is undefined
unfoldable pub write_settings :
    CliEnv → List Pair → Option String → Exec CliWorld (Option (List Pair))
write_settings env value_pairs (some s) = do
  old ← parse_file env (some s)
  write_env (env.stringify (assign old value_pairs))
  pure none
write_settings env value_pairs none = do
  sample ← gets (λ w. w.sample_file)
  old ← parse_file env sample
  write_env (env.stringify (assign old value_pairs))
  pure (some value_pairs)

unfoldable pub update_or_create_env : CliEnv → List Pair → Exec CliWorld (Option (List Pair))
update_or_create_env env value_pairs = do
  file ← gets (λ w. w.env_file)
  write_settings env value_pairs file

-- 3_registration.js, up to the receipt, which nothing uses

unfoldable pub call_contract : ContractCall → Exec CliWorld (Unit {0})
call_contract c = do
  execute (λ w. record w { contract_calls = c ∷ w.contract_calls })
  execute (λ w. w)
  execute (λ w. w)

abbrev pub approve : Exec CliWorld (Unit {0})
approve = call_contract approve_call

abbrev pub register : Value → Exec CliWorld (Unit {0})
register ip = call_contract (stake_core_call ip)

-- register.js: a property of undefined is a TypeError
abbrev pub ip_of : Option (List Pair) → Exec CliWorld Value
ip_of none = throw type_error
ip_of (some pairs) = pure (value_of "CORE_PUBLIC_IP_ADDRESS" pairs)

-- whether the message of success is shown
unfoldable pub register_main : CliEnv → Exec CliWorld Bool
register_main env =
    try_catch
      (do result ← update_or_create_env env []; ip ← ip_of result; approve; register ip; pure true)
      (λ _. pure false)

-- 0_swarm_secrets.js

-- A value in a template.
abbrev pub show : Value → String
show (text s) = s
show (choice b) = if b then "true" else "false"
show undefined = "undefined"

abbrev pub joined : List String → String
joined [] = ""
joined (s ∷ ss) = String.◌++◌ s (joined ss)

-- `v != null ? v : ''`
abbrev pub or_empty : Value → Value
or_empty undefined = text ""
or_empty (text s) = text s
or_empty (choice b) = choice b

abbrev pub secret : Value → String → String
secret v name = joined ("printf " ∷ show v ∷ " | docker secret create " ∷ name ∷ " -" ∷ [])

abbrev pub swarm_commands : String → Value → Value → List String
swarm_commands home ip wif =
    joined (
      "sed -i 's#external_address = .*#external_address = \""
      ∷ show ip
      ∷ ":26656\"#' "
      ∷ home
      ∷ "/.chainpoint/core/config/node_1/config.toml"
      ∷ [])
    ∷ joined (
        "docker swarm init --advertise-addr="
        ∷ show ip
        ∷ " || echo \"Swarm already initialized\""
        ∷ [])
    ∷ joined (
        "openssl ecparam -genkey -name secp256r1 -noout -out " ∷ home
        ∷ "/.chainpoint/core/data/keys/ecdsa_key.pem" ∷ [])
    ∷ joined (
        "cat " ∷ home
        ∷ "/.chainpoint/core/data/keys/ecdsa_key.pem | docker secret create ECDSA_PKPEM -" ∷ [])
    ∷ secret wif "BITCOIN_WIF"
    ∷ []

unfoldable pub private_key_of : CliEnv → List Pair → Exec CliWorld Value
private_key_of env pairs =
    if has_name "ETH_PRIVATE_KEY" pairs
    then pure (value_of "ETH_PRIVATE_KEY" pairs)
    else (do execute (λ w. w); pure (text env.create_wallet))

unfoldable pub store_wallet : CliEnv → List Pair → Exec CliWorld (Unit {0})
store_wallet env pairs = do
  key ← private_key_of env pairs
  elim (env.address_of key) [
    | none ↦ throw rpc_error
    | some address ↦
        exec_commands (secret (text address) "ETH_ADDRESS" ∷ secret key "ETH_PRIVATE_KEY" ∷ [])
  ]

abbrev pub settings_of : CliEnv → List Pair → List Pair
settings_of env pairs =
    record { name = "BTC_RPC_URI_LIST"; value = value_of "BTC_RPC_URI_LIST" pairs }
    ∷ record {
      name = "BLOCKCYPHER_API_TOKEN";
      value = or_empty (value_of "BLOCKCYPHER_API_TOKEN" pairs);
    }
    ∷ record { name = "PRIVATE_NODE_IPS"; value = or_empty (value_of "PRIVATE_NODE_IPS" pairs) }
    ∷ record { name = "PEERS"; value = or_empty (value_of "PEERS" pairs) }
    ∷ record { name = "NETWORK"; value = value_of "NETWORK" pairs }
    ∷ record {
      name = "CHAINPOINT_CORE_BASE_URI";
      value = text (joined ("http://" ∷ show (value_of "CORE_PUBLIC_IP_ADDRESS" pairs) ∷ []));
    }
    ∷ record { name = "CORE_DATADIR"; value = text (joined (env.home ∷ "/.chainpoint/core" ∷ [])) }
    ∷ record { name = "PRIVATE_NETWORK"; value = value_of "PRIVATE_NETWORK" pairs }
    ∷ []

unfoldable pub create_swarm_and_secrets : CliEnv → List Pair → Exec CliWorld (Option (List Pair))
create_swarm_and_secrets env pairs = do
  execute (λ w. w)
  try_catch
      (exec_commands (
        swarm_commands env.home (value_of "CORE_PUBLIC_IP_ADDRESS" pairs)
          (value_of "BITCOIN_WIF" pairs)))
      (λ _. pure tt)
  try_catch
      (exec_commands (
        secret (value_of "INFURA_API_KEY" pairs) "ETH_INFURA_API_KEY"
        ∷ secret (value_of "ETHERSCAN_API_KEY" pairs) "ETH_ETHERSCAN_API_KEY"
        ∷ []))
      (λ _. pure tt)
  try_catch (store_wallet env pairs) (λ _. pure tt)
  update_or_create_env env (settings_of env pairs)

-- init.js: the arguments, or where there is at most one the answers to the questions, if they come
unfoldable pub init_main :
    CliEnv → List Pair → Exec CliWorld (List Pair) → Exec CliWorld (Option (List Pair))
init_main env args prompt =
    if ltb 1 (length args)
    then create_swarm_and_secrets env args
    else (do answers ← prompt; create_swarm_and_secrets env answers)
