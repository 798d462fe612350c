-- ===== src/Tests/Ether.antt =====
-- The Ethereum endpoints at concrete inputs.
use chainpoint_core_erc.Prelude.{◌≡◌, refl, true, none, some, [], ◌∷◌, ◌⊎◌}
use chainpoint_core_erc.Exec.{ok, pure, try_catch, ◌>>=◌}
use chainpoint_core_erc.Utils.{is_hex}
use chainpoint_core_erc.UsageToken.{is_hex_tx}
use chainpoint_core_erc.UsageToken.Calls.{query}
use chainpoint_core_erc.UsageToken.Replies.{internal_server, ensure, ensure_some}
use chainpoint_core_erc.Eth.{Log, Ethers, post_eth_broadcast, allowed_methods}
use chainpoint_core_erc.Eth.Stats.{is_eth_address, ask, with_registration, get_eth_stats}
use chainpoint_core_erc.Eth.Allowed.{IsAllowed, post_eth_broadcast-IsAllowed}
use chainpoint_core_erc.Eth.Failing.{post_eth_broadcast_fails}
use chainpoint_core_erc.Tests.Token.{api_world}

abbrev approval : Log
approval = record {
  address = "0xtoken";
  name = some "Approval";
  values = record { spender = some "0xregistry"; amount_staked = none; duration = none };
}

abbrev ethers : Ethers
ethers = record {
  token_address = "0xtoken";
  registry_address = "0xregistry";
  decode = λ _. some "0xtoken";
  method_of = λ _ _. some "approve";
  receipt = λ _. record {
    transaction_hash = "aa";
    block_hash = "bb";
    block_number = 7;
    gas_used = some 21000;
    logs = approval ∷ [];
  };
  gas_price = some 5;
  transaction_count = λ _. 2;
  registration = λ _. none;
}

get_eth_stats_runs :
    (get_eth_stats ethers "0xAAAAAAAAAAaaaaaaaaaaAAAAAAAAAAaaaaaaaaaa" true api_world).0
    ≡ ok internal_server
unfolding get_eth_stats is_eth_address ask with_registration ensure ensure_some query try_catch pure
    ◌>>=◌
get_eth_stats_runs = refl

post_eth_broadcast-IsAllowed_example :
    ((post_eth_broadcast ethers (some "0xff") api_world).1.eth_txs ≡ [])
    ⊎ IsAllowed ethers (some "0xff") api_world (post_eth_broadcast ethers (some "0xff") api_world).1
post_eth_broadcast-IsAllowed_example = post_eth_broadcast-IsAllowed ethers (some "0xff") api_world

post_eth_broadcast_fails_example :
    ((post_eth_broadcast ethers (some "0xff") api_world).0 ≡ ok internal_server)
    × ((post_eth_broadcast ethers (some "0xff") api_world).1.eth_txs ≡ "0xff" ∷ [])
unfolding is_hex_tx is_hex allowed_methods
post_eth_broadcast_fails_example =
    post_eth_broadcast_fails ethers "0xff" "0xtoken" "approve" ("approve" ∷ []) api_world approval
      [] refl refl refl refl refl refl refl
