-- ===== src/ParseEnv/Validators.antt =====
-- node-lib/lib/parse-env.js: the validators.
use chainpoint_core_erc.Prelude.{
  ℕ, Bool, true, false, Option, none, some, String, List, [], ◌∷◌, map, ◌==◌, ◌&&◌, ◌||◌, leb, eqb,
  if◌then◌else◌,
}
use chainpoint_core_erc.Utils.{lower}
use chainpoint_core_erc.Utils.Ip.{codes}

-- What a validator is given: the text of the environment, or a default.
pub data Value : Type 0 where
  text : String → Value
  number : ℕ → Value

-- The number that a text stands for in a comparison; `not_a_number` compares with nothing, and
-- `negative` is below every bound.
pub data Coerced : Type 0 where
  not_a_number negative : Coerced
  natural : ℕ → Coerced

abbrev pub in_range : ℕ → ℕ → Coerced → Bool
in_range low high not_a_number = false
in_range low high negative = false
in_range low high (natural n) = leb low n && leb n high

-- The coercion of texts to numbers is that of JavaScript.
module _ (to_number : String → Coerced) where
  abbrev pub coerce : Value → Coerced
  coerce (text t) = to_number t
  coerce (number n) = natural n

  abbrev pub within : ℕ → ℕ → Value → Option Value
  within low high x = if in_range low high (coerce x) then some x else none

  unfoldable pub validate_max_hashes : Value → Option Value
  validate_max_hashes = within 100 25000

  unfoldable pub validate_monitor_range : Value → Option Value
  validate_monitor_range = within 10 600

  unfoldable pub validate_min_confirm_range : Value → Option Value
  validate_min_confirm_range = within 1 16

unfoldable pub validate_network : Value → Option String
validate_network (text name) =
    if name == "" || name == "mainnet"
    then some "mainnet"
    else if name == "testnet"
    then some "testnet"
    else none
validate_network (number n) = none

abbrev pub eq_codes : List ℕ → List ℕ → Bool
eq_codes [] [] = true
eq_codes [] (d ∷ t) = false
eq_codes (c ∷ s) [] = false
eq_codes (c ∷ s) (d ∷ t) = eqb c d && eq_codes s t

unfoldable pub validate_private_network : Value → Option Bool
validate_private_network (number n) = if eqb n 0 then some false else none
validate_private_network (text x) =
    let lowered = map lower (codes x) in
    if x == "" || eq_codes lowered (codes "false")
    then some false
    else if eq_codes lowered (codes "true")
    then some true
    else none

pub data Validator : Type 0 where
  str num url max_hashes monitor_range min_confirm_range network private_network : Validator

-- package envalid's own validators
pub record Standard : Type 0 where
  pub accepts_str : Value → Bool
  pub accepts_num : Value → Bool
  pub accepts_url : Value → Bool

abbrev is_some : {A : Type 0} → Option A → Bool
is_some none = false
is_some (some a) = true

-- Whether the value passes the validator.
unfoldable pub accepts : Standard → (String → Coerced) → Validator → Value → Bool
accepts std to_number str x = std.accepts_str x
accepts std to_number num x = std.accepts_num x
accepts std to_number url x = std.accepts_url x
accepts std to_number max_hashes x = is_some (validate_max_hashes to_number x)
accepts std to_number monitor_range x = is_some (validate_monitor_range to_number x)
accepts std to_number min_confirm_range x = is_some (validate_min_confirm_range to_number x)
accepts std to_number network x = is_some (validate_network x)
accepts std to_number private_network x = is_some (validate_private_network x)
