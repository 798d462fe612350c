-- ===== src/Tests/Token.antt =====
-- The usage token theorems at concrete inputs: a Node whose token has a balance of ten.
use chainpoint_core_erc.Utils.{get_client_ip, remove_first, is_hex}
use chainpoint_core_erc.Utils.Ip.{is_ip, ip_from, ip_here, dotted_quad, octet_dot, octet, one}
use chainpoint_core_erc.UsageToken.{is_hex_tx}
use chainpoint_core_erc.UsageToken.TokenUtils.{strip_scheme}
use chainpoint_core_erc.Prelude.{◌≡◌, refl, true, none, some, String, [], ◌∷◌, ◌==◌, if◌then◌else◌}
use chainpoint_core_erc.Exec.{ok, gets, pure, throw, try_catch, ◌>>=◌}
use chainpoint_core_erc.CachedState.Cache.{cache_get, cache_set}
use chainpoint_core_erc.UsageToken.State.{number, Claims, Decoded, ApiWorld}
use chainpoint_core_erc.UsageToken.TokenUtils.{
  TokenEnv, on_option, add_to_token_hash_cache, has_member_ip, read_known_iss, cache_known_iss,
  find_known_peer, is_known_peer_ip, cache_jwk, request_jwk, get_cached_jwk, verify_sig_with,
  verify_sig, cache_core_id, request_core_id, get_cached_core_id, broadcast_core_tx,
  get_active_token_by_node_ip, write_active_token,
}
use chainpoint_core_erc.UsageToken.Checks.{
  TokenRequest, is_valid_aud, with_aud, with_token, with_subject, ensure_active,
}
use chainpoint_core_erc.UsageToken.Replies.{sent, ensure, ensure_some}
use chainpoint_core_erc.UsageToken.Calls.{query, execute}
use chainpoint_core_erc.UsageToken.{
  EthEnv, next_uuid, construct_token_payload, refresh_token, post_token_refresh, store_active_token,
  activate_token, update_audience, post_token_audience_update, with_amount, with_purchase,
  broadcast_eth, issue_credit, post_token_credit,
}
use chainpoint_core_erc.UsageToken.Refresh.{IsRefresh, IsVerified, post_token_refresh_charges}
use chainpoint_core_erc.UsageToken.Audience.{IsAudienceUpdate, post_token_audience_update_limits}
use chainpoint_core_erc.UsageToken.Credit.{IsCredit, post_token_credit_charges}
use chainpoint_core_erc.UsageToken.Granted.{post_token_refresh_gives}

abbrev pub token_claims : Claims
token_claims = record {
  iss = some "http://10.0.0.1";
  sub = some "10.0.0.9";
  exp = number 5000;
  bal = number 10;
  aud = some ("10.0.0.1" ∷ "10.0.0.2" ∷ "10.0.0.3" ∷ []);
  aulr = number 2;
}

abbrev pub decoded_token : Decoded
decoded_token = record { kid = some "k1"; claims = token_claims }

abbrev pub token_env : TokenEnv
token_env = record {
  base_uri = "http://10.0.0.1";
  core_ip = "10.0.0.1";
  decode = λ t. if t == "old" then some decoded_token else none;
  verifies = λ t k. k.key == "pem";
  sign = λ _. some "new";
  sha256 = λ t. if t == "old" then "aa" else "bb";
  uuid = λ _. "uuid";
  core_status = λ _.
      some
        (some (record { jwk = some (record { kid = "k1"; key = "pem" }); node_id = some "core1" }));
}

abbrev eth_env : EthEnv
eth_env = record {
  parse_transaction = λ _. some (record {
    to = "0xc0";
    method = some (record { name = "purchaseUsage"; amount = some 250000000 });
  });
  token_contract_address = "0xc0";
}

abbrev pub node_request : TokenRequest
node_request = record {
  aud = some ("10.0.0.1" ∷ "10.0.0.2" ∷ "10.0.0.3" ∷ []);
  token_string = some "old";
  raw_tx = some "0xff";
  addresses = record {
    forwarded_for = none;
    connection_address = some "::ffff:10.0.0.9";
    socket_address = none;
  };
}

abbrev pub api_world : ApiWorld
api_world = record {
  clock = 1000000;
  outcomes = [];
  redis = true;
  uuids = 0;
  token_hashes = [];
  known_iss = [];
  jwks = [];
  core_id = none;
  staked_cores = "10.0.0.1" ∷ [];
  active_tokens = record { node_ip = "10.0.0.9"; token_hash = "aa" } ∷ [];
  broadcasts = [];
  eth_txs = [];
  channel = true;
  published = [];
}

post_token_refresh_runs : (post_token_refresh token_env node_request api_world).0 ≡ ok (sent "new")
unfolding on_option add_to_token_hash_cache has_member_ip read_known_iss cache_known_iss
    find_known_peer is_known_peer_ip cache_jwk request_jwk get_cached_jwk verify_sig_with verify_sig
    cache_core_id request_core_id get_cached_core_id broadcast_core_tx get_active_token_by_node_ip
    write_active_token get_client_ip remove_first strip_scheme is_hex is_hex_tx is_ip ip_from
    ip_here dotted_quad octet_dot octet one is_valid_aud ensure ensure_some with_aud with_token
    with_subject ensure_active query execute next_uuid construct_token_payload refresh_token
    post_token_refresh store_active_token activate_token update_audience post_token_audience_update
    with_amount with_purchase broadcast_eth issue_credit post_token_credit cache_get cache_set gets
    pure throw try_catch ◌>>=◌
post_token_refresh_runs = refl

post_token_audience_update_runs :
    (post_token_audience_update token_env node_request api_world).0 ≡ ok (sent "new")
unfolding on_option add_to_token_hash_cache has_member_ip read_known_iss cache_known_iss
    find_known_peer is_known_peer_ip cache_jwk request_jwk get_cached_jwk verify_sig_with verify_sig
    cache_core_id request_core_id get_cached_core_id broadcast_core_tx get_active_token_by_node_ip
    write_active_token get_client_ip remove_first strip_scheme is_hex is_hex_tx is_ip ip_from
    ip_here dotted_quad octet_dot octet one is_valid_aud ensure ensure_some with_aud with_token
    with_subject ensure_active query execute next_uuid construct_token_payload refresh_token
    post_token_refresh store_active_token activate_token update_audience post_token_audience_update
    with_amount with_purchase broadcast_eth issue_credit post_token_credit cache_get cache_set gets
    pure throw try_catch ◌>>=◌
post_token_audience_update_runs = refl

post_token_credit_runs :
    (post_token_credit token_env eth_env node_request api_world).0 ≡ ok (sent "new")
unfolding on_option add_to_token_hash_cache has_member_ip read_known_iss cache_known_iss
    find_known_peer is_known_peer_ip cache_jwk request_jwk get_cached_jwk verify_sig_with verify_sig
    cache_core_id request_core_id get_cached_core_id broadcast_core_tx get_active_token_by_node_ip
    write_active_token get_client_ip remove_first strip_scheme is_hex is_hex_tx is_ip ip_from
    ip_here dotted_quad octet_dot octet one is_valid_aud ensure ensure_some with_aud with_token
    with_subject ensure_active query execute next_uuid construct_token_payload refresh_token
    post_token_refresh store_active_token activate_token update_audience post_token_audience_update
    with_amount with_purchase broadcast_eth issue_credit post_token_credit cache_get cache_set gets
    pure throw try_catch ◌>>=◌
post_token_credit_runs = refl

node_request-IsVerified :
    IsVerified token_env node_request api_world
      ("10.0.0.1" ∷ "10.0.0.2" ∷ "10.0.0.3" ∷ [])
      "old"
      decoded_token
      "10.0.0.9"
unfolding on_option add_to_token_hash_cache has_member_ip read_known_iss cache_known_iss
    find_known_peer is_known_peer_ip cache_jwk request_jwk get_cached_jwk verify_sig_with verify_sig
    cache_core_id request_core_id get_cached_core_id broadcast_core_tx get_active_token_by_node_ip
    write_active_token get_client_ip remove_first strip_scheme is_hex is_hex_tx is_ip ip_from
    ip_here dotted_quad octet_dot octet one is_valid_aud ensure ensure_some with_aud with_token
    with_subject ensure_active query execute next_uuid construct_token_payload refresh_token
    post_token_refresh store_active_token activate_token update_audience post_token_audience_update
    with_amount with_purchase broadcast_eth issue_credit post_token_credit cache_get cache_set gets
    pure throw try_catch ◌>>=◌
node_request-IsVerified = record {
  aud_given = refl;
  aud_valid = refl;
  token_given = refl;
  token_decoded = refl;
  token_verified = refl;
  client = refl;
  subject = refl;
}

post_token_refresh_charges_example : IsRefresh token_env node_request api_world "new"
post_token_refresh_charges_example =
    post_token_refresh_charges token_env node_request api_world "new" post_token_refresh_runs

post_token_audience_update_limits_example : IsAudienceUpdate token_env node_request api_world "new"
post_token_audience_update_limits_example =
    post_token_audience_update_limits token_env node_request api_world "new"
      post_token_audience_update_runs

post_token_credit_charges_example : IsCredit token_env eth_env node_request api_world "new"
post_token_credit_charges_example =
    post_token_credit_charges token_env eth_env node_request api_world "new" post_token_credit_runs

post_token_refresh_gives_example :
    (s : String) × ((post_token_refresh token_env node_request api_world).0 ≡ ok (sent s))
post_token_refresh_gives_example =
    post_token_refresh_gives token_env node_request api_world
      ("10.0.0.1" ∷ "10.0.0.2" ∷ "10.0.0.3" ∷ []) "old" decoded_token "10.0.0.9"
      node_request-IsVerified (λ _. ("new", refl)) (record { quiet = refl; connected = refl }) refl
      refl
