-- ===== src/Endpoints/Listed.antt =====
-- node-api-service/lib/endpoints/{peers,nodes}.js: which addresses are listed.
use chainpoint_core_erc.Prelude.{
  ◌≡◌, refl, ap, ℕ, Bool, true, false, none, some, String, List, [], ◌∷◌, ◌⊎◌, inl, inr, map,
  if◌then◌else◌, Option-cases,
}
use chainpoint_core_erc.Prelude.Lists.{filter_by}
use chainpoint_core_erc.UsageToken.Replies.{Reply, sent, internal_server}
use chainpoint_core_erc.Endpoints.Rpc.{Peer, RpcClient}
use chainpoint_core_erc.Endpoints.Peers.{is_routable}
use chainpoint_core_erc.Endpoints.Nodes.{
  http, NodesEnv, reward_candidates, nodes_of_rows, get_random_nodes, or_random, get_nodes,
}
use chainpoint_core_erc.Endpoints.Candidates.{uri_of_ip, AreCandidates, listed_candidates}

-- The items of the first stand in the second, in order.
pub data Sublist {A : Type 0} : List A → List A → Type 0 where
  empty : Sublist [] []
  keep : (x : A) (xs ys : List A) → Sublist xs ys → Sublist (x ∷ xs) (x ∷ ys)
  skip : (y : A) (xs ys : List A) → Sublist xs ys → Sublist xs (y ∷ ys)

abbrev pub directly_routable : List Peer → List (List ℕ)
directly_routable peers = map (λ p. p.remote_ip) (filter_by (λ p. is_routable p.remote_ip) peers)

-- What the answer consists of: reward candidates, at least one, or the rows drawn at random.
pub data IsListing (env : NodesEnv) (client : RpcClient) : List String → Type 0 where
  candidates :
      (uri : String) (uris : List String)
      → AreCandidates env client (uri ∷ uris)
      → IsListing env client (uri ∷ uris)
  random :
      (ips : List String) → env.random_nodes ≡ some ips → IsListing env client (map uri_of_ip ips)

module _ (env : NodesEnv) (client : RpcClient) where
  abbrev Lists : Reply (List String) → Type 0
  Lists r =
      ((uris : List String) × (r ≡ sent uris) × IsListing env client uris)
      ⊎ ((r ≡ internal_server) × (env.random_nodes ≡ none))

  get_random_nodes-Lists : Lists (get_random_nodes env)
  unfolding get_random_nodes nodes_of_rows
  get_random_nodes-Lists = elim (Option-cases env.random_nodes) [
    | inl e ↦ inr (ap nodes_of_rows e, e)
    | inr (ips, e) ↦ inl (map http ips, ap nodes_of_rows e, random ips e)
  ]

  or_random-Lists :
      (uris : List String)
      → reward_candidates env client ≡ uris
      → env.private_network ≡ false
      → Lists (or_random env uris)
  unfolding or_random
  or_random-Lists [] h p = get_random_nodes-Lists
  or_random-Lists (uri ∷ uris) h p =
      inl (uri ∷ uris, refl, candidates uri uris (listed_candidates env client uri uris p h))

  if_public :
      (b : Bool)
      → env.private_network ≡ b
      → Lists (or_random env (if b then [] else reward_candidates env client))
  unfolding or_random
  if_public true e = get_random_nodes-Lists
  if_public false e = or_random-Lists (reward_candidates env client) refl e

-- Whatever Tendermint answers, the endpoint sends a list of addresses. Either the list is not empty,
-- the network is public, and an address is listed, once, exactly if its IP is named by one of the
-- transactions, each of them readable, that the search for the last epoch with rewards has found; or it
-- is that of the staked Nodes drawn at random. The answer is an error only where that query fails.
pub get_nodes_lists :
    (env : NodesEnv) (client : RpcClient)
    → ((uris : List String) × (get_nodes env client ≡ sent uris) × IsListing env client uris)
      ⊎ ((get_nodes env client ≡ internal_server) × (env.random_nodes ≡ none))
unfolding get_nodes
get_nodes_lists env client = if_public env client env.private_network refl
