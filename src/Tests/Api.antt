-- ===== src/Tests/Api.antt =====
-- The reading endpoints at concrete inputs.
use chainpoint_core_erc.Prelude.{
  ◌≡◌, refl, true, false, none, some, String, List, [], ◌∷◌, ◌⊎◌, map,
}
use chainpoint_core_erc.Exec.{ok, pure, ◌>>=◌}
use chainpoint_core_erc.Utils.Ip.{codes}
use chainpoint_core_erc.World.Calls.{call, execute}
use chainpoint_core_erc.World.Ops.{Proof}
use chainpoint_core_erc.GenService.{write_proofs_bulk}
use chainpoint_core_erc.UsageToken.Replies.{sent, internal_server}
use chainpoint_core_erc.Endpoints.Rpc.{minus, RpcError, Peer, RpcClient, returned, thrown}
use chainpoint_core_erc.Endpoints.{StatusEnv, get_cal_tx, get_cal_tx_data, get_core_status}
use chainpoint_core_erc.Endpoints.Peers.{
  is_routable, get_peers, substring, first_octet, is_private, listen_ip, peer_ip,
}
use chainpoint_core_erc.Endpoints.Nodes.{NodesEnv, get_nodes}
use chainpoint_core_erc.Endpoints.Proofs.{get_proofs_by_ids}
use chainpoint_core_erc.Endpoints.Answers.{rpc_answer, endpoints_answer_by_code}
use chainpoint_core_erc.Endpoints.Listed.{IsListing, get_nodes_lists}
use chainpoint_core_erc.Endpoints.ReadBack.{written_or_stored, get_proofs_by_ids-write_proofs_bulk}
use chainpoint_core_erc.Tests.Data.{empty_world}

abbrev no_such_tx : RpcError
no_such_tx = record { code = some (minus 32603); data_text = none }

abbrev failing_client : RpcClient
failing_client = record {
  tx = λ _. thrown no_such_tx;
  status = thrown no_such_tx;
  net_info = thrown no_such_tx;
  abci_info = thrown no_such_tx;
  tx_search = λ _ _ _. thrown no_such_tx;
  broadcast_tx = λ _. thrown no_such_tx;
  decode_tx = λ _. none;
}

abbrev status_env : StatusEnv
status_env = record {
  version = "1.0.0";
  base_uri = "http://10.0.0.1";
  network = "mainnet";
  private_network = false;
  jwk = none;
}

endpoints_answer_by_code_example :
    (get_cal_tx failing_client "aa"
      ≡ rpc_answer "Could not find transaction with id = 'aa'" "Could not query for tx by hash"
          no_such_tx)
    × (get_cal_tx_data (λ t. t) failing_client "aa"
        ≡ rpc_answer "Could not find transaction with id = 'aa'" "Could not query for tx by hash"
            no_such_tx)
    × (get_core_status status_env failing_client 0
        ≡ rpc_answer "Resource not found" "Could not query for status" no_such_tx)
    × (get_peers failing_client
        ≡ rpc_answer "Resource not found" "Could not query for net info" no_such_tx)
endpoints_answer_by_code_example =
    endpoints_answer_by_code failing_client no_such_tx (λ t. t) status_env 0 "aa"
      (record { tx = λ _. refl; status = refl; net_info = refl })

abbrev peers : List Peer
peers =
    record { remote_ip = codes "8.8.8.8"; listen_addr = codes "tcp://0.0.0.0:26656" }
    ∷ record { remote_ip = codes "10.0.0.2"; listen_addr = codes "tcp://9.9.9.9:26656" }
    ∷ []

abbrev peers_client : RpcClient
peers_client = record failing_client { net_info = returned peers }

-- An address without a port and without slashes is listed as the empty text.
peer_ip-no_port :
    peer_ip (record { remote_ip = codes "10.0.0.2"; listen_addr = codes "9.9.9.9" }) ≡ []
unfolding peer_ip listen_ip is_private first_octet substring
peer_ip-no_port = refl

is_routable-empty : is_routable [] ≡ true
unfolding is_routable is_private first_octet substring
is_routable-empty = refl

abbrev nodes_env : NodesEnv
nodes_env = record {
  private_network = false;
  prev_epoch = λ _. some 7;
  tag_of = λ _. "\"NODERC=7\"";
  node_ips = λ _. some ("9.9.9.9" ∷ "9.9.9.9" ∷ []);
  random_nodes = some ("8.8.8.8" ∷ []);
}

-- Two transactions, each of which names the Node twice.
abbrev rewarding_client : RpcClient
rewarding_client = record failing_client {
  abci_info = returned "info";
  tx_search = λ tag page per_page. returned ("tx1" ∷ "tx2" ∷ []);
}

get_nodes_lists_example :
    ((uris : List String) × (get_nodes nodes_env rewarding_client ≡ sent uris)
      × IsListing nodes_env rewarding_client uris)
    ⊎ ((get_nodes nodes_env rewarding_client ≡ internal_server) × (nodes_env.random_nodes ≡ none))
get_nodes_lists_example = get_nodes_lists nodes_env rewarding_client

abbrev stored_proof : Proof
stored_proof = record {
  context = "https://w3id.org/chainpoint/v4";
  type = "Chainpoint";
  hash = "aa";
  hash_id_node = "";
  hash_submitted_node_at = "";
  hash_id_core = "h1";
  hash_submitted_core_at = "";
  branches = [];
}

write_proofs_bulk_runs : (write_proofs_bulk (stored_proof ∷ []) empty_world).0 ≡ ok true
unfolding write_proofs_bulk execute call pure ◌>>=◌
write_proofs_bulk_runs = refl

write_proofs_bulk_quiet : (write_proofs_bulk (stored_proof ∷ []) empty_world).1.outcomes ≡ []
unfolding write_proofs_bulk execute call pure ◌>>=◌
write_proofs_bulk_quiet = refl

get_proofs_by_ids-write_proofs_bulk_example :
    (get_proofs_by_ids
      (λ _. true)
      ("h1" ∷ "h2" ∷ [])
      (write_proofs_bulk (stored_proof ∷ []) empty_world).1).0
    ≡ ok (sent (map (written_or_stored (stored_proof ∷ []) []) ("h1" ∷ "h2" ∷ [])))
get_proofs_by_ids-write_proofs_bulk_example =
    get_proofs_by_ids-write_proofs_bulk (λ _. true) ("h1" ∷ "h2" ∷ []) (stored_proof ∷ [])
      empty_world true (record { some_ids = refl; few = refl; valid = refl }) tt
      write_proofs_bulk_runs write_proofs_bulk_quiet
