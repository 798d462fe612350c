-- ===== src/Eth/Stats.antt =====
-- node-api-service/lib/endpoints/eth.js: getEthStatsAsync.
use chainpoint_core_erc.Prelude.{
  ℕ, Bool, false, Option, none, some, String, List, [], ◌∷◌, ◌&&◌, eqb, if◌then◌else◌,
}
use chainpoint_core_erc.Prelude.Lists.{length}
use chainpoint_core_erc.Exec.{rpc_error, Exec, pure, try_catch, ◌>>=◌}
use chainpoint_core_erc.Utils.{all_hex, lower}
use chainpoint_core_erc.Utils.Ip.{codes}
use chainpoint_core_erc.UsageToken.State.{ApiWorld}
use chainpoint_core_erc.UsageToken.Calls.{query}
use chainpoint_core_erc.UsageToken.Replies.{
  Reply, sent, invalid_argument, internal_server, ensure, ensure_some,
}
use chainpoint_core_erc.Eth.{Ethers, Registration}

pub record EthStats : Type 0 where
  -- in tenths
  pub credit_price : ℕ
  pub gas_price : ℕ
  pub transaction_count : ℕ
  pub registration : Option Registration

-- `/^0x[0-9a-fA-F]{40}$/i`
abbrev pub is_eth_codes : List ℕ → Bool
is_eth_codes (z ∷ x ∷ digits) =
    eqb z b'0' && eqb (lower x) b'x' && all_hex digits && eqb (length digits) 40
is_eth_codes (z ∷ []) = false
is_eth_codes [] = false

unfoldable pub is_eth_address : String → Bool
is_eth_address addr = is_eth_codes (codes addr)

-- `try { … } catch (error) { return next(…) }`: an answer that is none is refused
unfoldable pub ask :
    {A R : Type 0} → Option A → (A → Exec ApiWorld (Reply R)) → Exec ApiWorld (Reply R)
ask answer next = do
  a ← try_catch (query rpc_error (λ _. answer)) (λ _. pure none)
  ensure_some a internal_server next

-- what is asked only of a verbose request
unfoldable pub with_registration :
    {R : Type 0}
    → Bool
    → Option Registration
    → (Option Registration → Exec ApiWorld (Reply R))
    → Exec ApiWorld (Reply R)
with_registration verbose registration next =
    if verbose then ask registration (λ r. next (some r)) else next none

-- An answer of the providers whose number `toNumber` refuses is none.
unfoldable pub get_eth_stats : Ethers → String → Bool → Exec ApiWorld (Reply (String × EthStats))
get_eth_stats eth addr verbose = ensure (is_eth_address addr) invalid_argument (
    ask eth.gas_price (λ gas_price. ask (some (eth.transaction_count addr)) (λ transaction_count.
      with_registration verbose (eth.registration addr) (λ registration. pure (
        sent (
          addr,
          record {
            credit_price = 1;
            gas_price = gas_price;
            transaction_count = transaction_count;
            registration = registration;
          },
        ))))))
