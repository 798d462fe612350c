-- ===== src/Endpoints/Nodes.antt =====
-- node-api-service/lib/endpoints/nodes.js and node-lib/lib/models/StakedNode.js: addresses of Nodes, those
-- that Tendermint has rewarded or else staked ones at random.
use chainpoint_core_erc.Prelude.{
  ℕ, Bool, Option, none, some, String, List, [], ◌∷◌, ◌++◌, map, eqb, if◌then◌else◌,
}
use Prim.Native.String
use chainpoint_core_erc.Prelude.Lists.{includes}
use chainpoint_core_erc.UsageToken.Replies.{Reply, sent, internal_server}
use chainpoint_core_erc.Endpoints.Rpc.{result, error, RpcClient, get_abci_info, get_tx_search}

-- How texts are read, `none` where that throws: the epoch in the ABCI info, which is compared with 0
-- and put in the tag of a search, and the IPs in a transaction. The rows that the database draws at
-- random, `none` where the query fails.
pub record NodesEnv : Type 0 where
  pub private_network : Bool
  pub prev_epoch : String → Option ℕ
  pub tag_of : ℕ → String
  pub node_ips : String → Option (List String)
  pub random_nodes : Option (List String)

abbrev pub http : String → String
http ip = String.◌++◌ "http://" ip

-- `[...new Set(xs)]`: each text once, where it was first
abbrev pub distinct_from : List String → List String → List String
distinct_from seen [] = []
distinct_from seen (x ∷ xs) =
    let without = distinct_from seen xs in
    let with_x = distinct_from (x ∷ seen) xs in if includes x seen then without else x ∷ with_x

unfoldable pub distinct : List String → List String
distinct xs = distinct_from [] xs

-- The IPs of every transaction, or none if one of them cannot be read.
abbrev pub read_all : (String → Option (List String)) → List String → Option (List String)
read_all node_ips [] = some []
read_all node_ips (tx ∷ txs) =
    let rest = read_all node_ips txs in
    elim (node_ips tx) [
      | none ↦ none
      | some ips ↦ elim rest [ none ↦ none | some others ↦ some (map http ips ++ others) ]
    ]

-- The reward candidates of an epoch; every error leads to an empty list.
unfoldable pub candidates_of : NodesEnv → RpcClient → ℕ → List String
candidates_of env client prev_epoch = elim (get_tx_search client (env.tag_of prev_epoch) 1 25) [
  | error response_code message ↦ []
  | result txs ↦ elim (read_all env.node_ips txs) [ none ↦ [] | some uris ↦ distinct uris ]
]

unfoldable pub reward_candidates : NodesEnv → RpcClient → List String
reward_candidates env client = elim (get_abci_info client) [
  | error response_code message ↦ []
  | result info ↦ elim (env.prev_epoch info) [
    | none ↦ []
    | some prev_epoch ↦ if eqb prev_epoch 0 then [] else candidates_of env client prev_epoch
  ]
]

-- `getRandomNodes`, and what the handler makes of its rows
unfoldable pub nodes_of_rows : Option (List String) → Reply (List String)
nodes_of_rows none = internal_server
nodes_of_rows (some ips) = sent (map http ips)

unfoldable pub get_random_nodes : NodesEnv → Reply (List String)
get_random_nodes env = nodes_of_rows env.random_nodes

unfoldable pub or_random : NodesEnv → List String → Reply (List String)
or_random env [] = get_random_nodes env
or_random env (uri ∷ uris) = sent (uri ∷ uris)

unfoldable pub get_nodes : NodesEnv → RpcClient → Reply (List String)
get_nodes env client =
    or_random env (if env.private_network then [] else reward_candidates env client)
