-- ===== src/Cli/Registered.antt =====
-- cli/register.js: what the command stakes.
use chainpoint_core_erc.Prelude.{
  ◌≡◌, refl, sym, subst, Bool, true, false, Option, none, some, String, List, [], ◌∷◌,
}
use chainpoint_core_erc.Exec.{
  rpc_error, Result, ok, err, Exec, pure, throw, gets, continue, handle, try_catch, ◌>>=◌, ◌>>◌,
}
use chainpoint_core_erc.World.{Outcome, done, refused, lost}
use chainpoint_core_erc.World.Calls.{next_outcome, later_outcomes, respond}
use chainpoint_core_erc.Cli.{
  undefined, Pair, ContractCall, approve_call, stake_core_call, CliWorld, CliEnv, execute, assign,
  write_env, parse_file, write_settings, update_or_create_env, call_contract, approve, register,
  ip_of, register_main,
}

-- The calls of contracts after those there were, by the text of `.env` before.
pub data Stakes (cs : List ContractCall) : Option String → List ContractCall → Type 0 where
  nothing : {file : Option String} → Stakes cs file cs
  approved : Stakes cs none (approve_call ∷ cs)
  staked : Stakes cs none (stake_core_call undefined ∷ approve_call ∷ cs)

abbrev next : CliWorld → CliWorld
next w = record w { outcomes = later_outcomes w.outcomes }

respond_cases :
    (o : Outcome) (P : Result (Unit {0}) × CliWorld → Type 0) (f : CliWorld → CliWorld)
    (w : CliWorld)
    → P (ok tt, f w)
    → P (err rpc_error, w)
    → P (err rpc_error, f w)
    → P (respond o rpc_error (λ v. (tt, f v)) w)
respond_cases done P f w p q r = p
respond_cases refused P f w p q r = q
respond_cases lost P f w p q r = r

-- A call by what holds however it ends.
execute_cases :
    (P : Result (Unit {0}) × CliWorld → Type 0) (f : CliWorld → CliWorld) (w : CliWorld)
    → P (ok tt, f (next w))
    → P (err rpc_error, next w)
    → P (err rpc_error, f (next w))
    → P (execute f w)
unfolding execute
execute_cases P f w = respond_cases (next_outcome w.outcomes) P f (next w)

-- A call of a contract has reached it, or throws.
data CallEnds (c : ContractCall) (cs : List ContractCall)
    : Result (Unit {0}) × CliWorld → Type 0 where
  reached :
      {r : Result (Unit {0})} {w : CliWorld} → w.contract_calls ≡ c ∷ cs → CallEnds c cs (r, w)
  unreached : {w : CliWorld} → w.contract_calls ≡ cs → CallEnds c cs (err rpc_error, w)

call_contract_ends :
    (c : ContractCall) (w : CliWorld) → CallEnds c w.contract_calls (call_contract c w)
unfolding call_contract ◌>>=◌
call_contract_ends c w =
    let log : CliWorld → CliWorld = λ v. record v { contract_calls = c ∷ v.contract_calls } in
    execute_cases
      (λ x.
        CallEnds c w.contract_calls (continue x.0 (λ _. execute (λ v. v) >> execute (λ v. v)) x.1))
      log w
      (execute_cases (λ x. CallEnds c w.contract_calls (continue x.0 (λ _. execute (λ v. v)) x.1))
        (λ v. v) (log (next w))
        (execute_cases (CallEnds c w.contract_calls) (λ v. v) (next (log (next w))) (reached refl)
          (reached refl) (reached refl))
        (reached refl) (reached refl))
      (unreached refl) (reached refl)

-- The update of `.env` without settings, by the text of the file before.
data UpdateEnds (cs : List ContractCall)
    : Option String → Result (Option (List Pair)) × CliWorld → Type 0 where
  threw :
      {file : Option String} {w : CliWorld}
      → w.contract_calls ≡ cs
      → UpdateEnds cs file (err rpc_error, w)
  updated :
      {file : Option String} {w : CliWorld}
      → w.contract_calls ≡ cs
      → UpdateEnds cs file (ok none, w)
  created : {w : CliWorld} → w.contract_calls ≡ cs → UpdateEnds cs none (ok (some []), w)

write_ends :
    (cs : List ContractCall) (file : Option String) (result : Option (List Pair)) (env : CliEnv)
    (old : List Pair) (w : CliWorld)
    → w.contract_calls ≡ cs
    → ((v : CliWorld) → v.contract_calls ≡ cs → UpdateEnds cs file (ok result, v))
    → UpdateEnds cs file ((do write_env (env.stringify (assign old [])); pure result) w)
unfolding write_env pure ◌>>=◌
write_ends cs file result env old w same end =
    execute_cases (λ x. UpdateEnds cs file (continue x.0 (λ _. pure result) x.1))
      (λ v. record v { env_file = some (env.stringify (assign old [])) }) w (end _ same)
      (threw same) (threw same)

read_ends :
    (cs : List ContractCall) (file : Option String) (result : Option (List Pair)) (env : CliEnv)
    (t : Option String) (w : CliWorld)
    → w.contract_calls ≡ cs
    → ((v : CliWorld) → v.contract_calls ≡ cs → UpdateEnds cs file (ok result, v))
    → UpdateEnds cs file
        ((do old ← parse_file env t; write_env (env.stringify (assign old [])); pure result) w)
unfolding parse_file throw pure ◌>>=◌
read_ends cs file result env none w same end = threw same
read_ends cs file result env (some s) w same end =
    execute_cases
      (λ x.
        let y = continue x.0 (λ _. pure (env.parse s)) x.1 in
        UpdateEnds cs file
          (continue y.0 (λ old. do write_env (env.stringify (assign old [])); pure result) y.1))
      (λ v. v) w (write_ends cs file result env (env.parse s) (next w) same end) (threw same)
      (threw same)

update_ends :
    (env : CliEnv) (w : CliWorld) (file : Option String)
    → UpdateEnds w.contract_calls file (write_settings env [] file w)
unfolding write_settings gets ◌>>=◌
update_ends env w none =
    read_ends w.contract_calls none (some []) env w.sample_file w refl (λ v same. created same)
update_ends env w (some s) =
    read_ends w.contract_calls (some s) none env (some s) w refl (λ v same. updated same)

-- The calls that were made at the end, when `x` has happened and `k` follows.
abbrev calls_after :
    {A : Type 0} → Result A × CliWorld → (A → Exec CliWorld Bool) → List ContractCall
unfolding pure
calls_after x k = let y = continue x.0 k x.1 in (handle y.0 (λ _. pure false) y.1).1.contract_calls

after_register :
    (cs : List ContractCall) (x : Result (Unit {0}) × CliWorld)
    → CallEnds (stake_core_call undefined) (approve_call ∷ cs) x
    → Stakes cs none (calls_after x (λ _. pure true))
unfolding calls_after pure
after_register cs (ok u, w) (reached eq) = subst (Stakes cs none) (sym eq) staked
after_register cs (err e, w) (reached eq) = subst (Stakes cs none) (sym eq) staked
after_register cs (err e, w) (unreached eq) = subst (Stakes cs none) (sym eq) approved

after_approve :
    (cs : List ContractCall) (x : Result (Unit {0}) × CliWorld)
    → CallEnds approve_call cs x
    → Stakes cs none (calls_after x (λ _. do register undefined; pure true))
unfolding calls_after pure ◌>>=◌
after_approve cs (ok u, w) (reached eq) = after_register cs _ (
    subst (λ l. CallEnds (stake_core_call undefined) l (register undefined w)) eq
      (call_contract_ends (stake_core_call undefined) w))
after_approve cs (err e, w) (reached eq) = subst (Stakes cs none) (sym eq) approved
after_approve cs (err e, w) (unreached eq) = subst (Stakes cs none) (sym eq) nothing

after_update :
    (cs : List ContractCall) (file : Option String) (x : Result (Option (List Pair)) × CliWorld)
    → UpdateEnds cs file x
    → Stakes cs file
        (calls_after x (λ result. do ip ← ip_of result; approve; register ip; pure true))
unfolding calls_after pure throw ◌>>=◌
after_update cs file (err e, w) (threw eq) = subst (Stakes cs file) (sym eq) nothing
after_update cs file (ok (some pairs), w) (created eq) =
    after_approve cs (approve w)
      (subst (λ l. CallEnds approve_call l (approve w)) eq (call_contract_ends approve_call w))
after_update cs file (ok none, w) (updated eq) = subst (Stakes cs file) (sym eq) nothing

-- Whatever the outcomes of the calls, the command that stakes a Core calls no contract where `.env`
-- exists; where it does not, it may approve the allowance, and after that stake without an address.
pub register_main-Stakes :
    (env : CliEnv) (w : CliWorld)
    → Stakes w.contract_calls w.env_file (register_main env w).1.contract_calls
unfolding register_main update_or_create_env gets try_catch ◌>>=◌ calls_after
register_main-Stakes env w =
    after_update w.contract_calls w.env_file (write_settings env [] w.env_file w)
      (update_ends env w w.env_file)
