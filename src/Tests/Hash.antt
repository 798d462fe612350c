-- ===== src/Tests/Hash.antt =====
-- Submissions of a hash, the helpers of utils.js, and their theorems at concrete inputs.
use Prim.Native.String
use chainpoint_core_erc.Utils.{
  get_client_ip, remove_first, is_hex, add_seconds, add_minutes, format_date_iso8601_no_ms,
}
use chainpoint_core_erc.Utils.Ip.{
  is_ip, ip_from, ip_here, dotted_quad, octet_dot, octet, one, codes,
}
use chainpoint_core_erc.Prelude.{
  String, ◌≡◌, refl, ◌+◌, ◌*◌, ◌≤◌, ◌<◌, false, true, some, [], ◌∷◌, arith,
}
use chainpoint_core_erc.Exec.{ok, gets, pure, throw, try_catch, ◌>>=◌}
use chainpoint_core_erc.CachedState.Cache.{cache_get, cache_set}
use chainpoint_core_erc.UsageToken.State.{ApiWorld}
use chainpoint_core_erc.UsageToken.TokenUtils.{
  strip_scheme, on_option, has_member_ip, read_known_iss, cache_known_iss, find_known_peer,
  is_known_peer_ip, cache_jwk, request_jwk, get_cached_jwk, verify_sig_with, verify_sig,
  cache_core_id, request_core_id, get_cached_core_id, broadcast_core_tx, write_active_token,
  is_token_hash_cached, remove_from_token_hash_cache,
}
use chainpoint_core_erc.UsageToken.Checks.{with_token, with_subject}
use chainpoint_core_erc.UsageToken.Replies.{sent, ensure, ensure_some}
use chainpoint_core_erc.UsageToken.Calls.{query, execute}
use chainpoint_core_erc.Hashes.{
  hash_text, HashRequest, is_valid_hash, is_token_aud, try_write, try_broadcast, activate_cached,
  confirm_token, with_node, publish_hash, submit_hash, post_hash,
}
use chainpoint_core_erc.Hashes.Response.{
  HashEnv, HashResponse, start_of_hour, generate_processing_hints, generate_post_hash_response,
}
use chainpoint_core_erc.Hashes.Accepted.{IsAccepted, post_hash-IsAccepted}
use chainpoint_core_erc.Hashes.Activated.{calm, IsActivated}
use chainpoint_core_erc.Hashes.Retired.{confirm_token_retires}
use chainpoint_core_erc.UsageToken.{post_token_refresh, post_token_audience_update}
use chainpoint_core_erc.Hashes.Hints.{generate_processing_hints_bounds}
use chainpoint_core_erc.Utils.Unanchored.{is_ip_unanchored}
use chainpoint_core_erc.Utils.Ops.{
  at_left, at_right, format_as_chainpoint_v3_ops, format_as_chainpoint_v3_ops-replay,
}
use chainpoint_core_erc.GenService.Verify.{Hashing, replay}
use chainpoint_core_erc.Tests.Token.{token_env, node_request, api_world}

abbrev hash_env : HashEnv
hash_env = record {
  private_network = false;
  hour_shift = 1800000;
  blake2s = λ h. h;
  uuid_v1 = λ _ _ _. "id";
}

-- forty hex digits
abbrev hash_request : HashRequest
hash_request = record {
  is_json = true;
  hash = hash_text (codes "AAAAAAAAAAaaaaaaaaaaAAAAAAAAAAaaaaaaaaaa");
  request = node_request;
}

-- The token awaits its first use, and an older one is the active one.
abbrev waiting_world : ApiWorld
waiting_world = record api_world {
  token_hashes = cache_set 1000000 100 "aa" "cached" [];
  active_tokens = record { node_ip = "10.0.0.9"; token_hash = "older" } ∷ [];
}

abbrev hash_response : HashResponse
hash_response = record {
  hash_id = "id";
  hash = codes "aaaaaaaaaaaaaaaaaaaaaaaaaaaaaaaaaaaaaaaa";
  submitted_at = 1000;
  processing_hints = record { cal = 1010; btc = 5400 };
}

post_hash_runs :
    (post_hash token_env hash_env hash_request waiting_world).0 ≡ ok (sent hash_response)
unfolding on_option has_member_ip read_known_iss cache_known_iss find_known_peer is_known_peer_ip
    cache_jwk request_jwk get_cached_jwk verify_sig_with verify_sig cache_core_id request_core_id
    get_cached_core_id broadcast_core_tx write_active_token get_client_ip remove_first strip_scheme
    is_hex is_ip ip_from ip_here dotted_quad octet_dot octet one ensure ensure_some with_token
    with_subject query execute cache_get cache_set gets is_token_hash_cached
    remove_from_token_hash_cache is_valid_hash is_token_aud try_write try_broadcast activate_cached
    confirm_token with_node publish_hash submit_hash post_hash start_of_hour
    generate_processing_hints generate_post_hash_response add_seconds add_minutes
    format_date_iso8601_no_ms pure throw try_catch ◌>>=◌
post_hash_runs = refl

post_hash-IsAccepted_example :
    IsAccepted token_env hash_env hash_request waiting_world hash_response
      (post_hash token_env hash_env hash_request waiting_world).1
post_hash-IsAccepted_example =
    post_hash-IsAccepted token_env hash_env hash_request waiting_world hash_response post_hash_runs

generate_processing_hints_bounds_example :
    let hints = generate_processing_hints 1800000 1000000 in
    (hints.cal * 1000 ≤ 1000000 + 10000)
    × (1000000 + 10000 < hints.cal * 1000 + 1000)
    × (1000000 + 3600000 < hints.btc * 1000 + 1000)
    × (hints.btc * 1000 ≤ 1000000 + 7200000)
    × (hints.cal < hints.btc)
generate_processing_hints_bounds_example =
    generate_processing_hints_bounds 1800000 1000000 (omega arith)

address-is_ip : is_ip "10.0.0.1" ≡ true
unfolding is_ip ip_from ip_here dotted_quad octet_dot octet one
address-is_ip = refl

-- A text that is no address, and ends in one.
is_ip_unanchored_example : is_ip "no address 10.0.0.1" ≡ true
is_ip_unanchored_example = is_ip_unanchored "no address" "10.0.0.1" address-is_ip

abbrev text_hashing : Hashing
text_hashing = record {
  prepend = λ v x. String.◌++◌ v x;
  append = λ x v. String.◌++◌ x v;
  digest = λ name x. String.◌++◌ name x;
}

format_as_chainpoint_v3_ops-replay_example :
    replay text_hashing (format_as_chainpoint_v3_ops (at_left "a" ∷ at_right "b" ∷ []) "h") "x"
    ≡ "hhaxb"
format_as_chainpoint_v3_ops-replay_example =
    format_as_chainpoint_v3_ops-replay text_hashing "h" (at_left "a" ∷ at_right "b" ∷ []) "x"

waiting_world-cached : cache_get 1000000 "aa" waiting_world.token_hashes ≡ some "cached"
unfolding cache_get cache_set
waiting_world-cached = refl

-- The token that is to replace "old" awaits its first use.
abbrev renewed_world : ApiWorld
renewed_world = record waiting_world { token_hashes = cache_set 1000000 3600 "bb" "cached" [] }

renewed_world-cached : cache_get 1000000 "bb" renewed_world.token_hashes ≡ some "cached"
unfolding cache_get cache_set
renewed_world-cached = refl

node_request-client : get_client_ip node_request.addresses ≡ some "10.0.0.9"
unfolding get_client_ip remove_first
node_request-client = refl

confirm_token_retires_example :
    (v : ApiWorld) × (confirm_token token_env "10.0.0.9" "bb" (pure (sent tt)) (calm renewed_world)
      ≡ pure (sent tt) v)
    × IsActivated "10.0.0.9" "bb" renewed_world v
    × ((s : String) → ¬ ((post_token_refresh token_env node_request v).0 ≡ ok (sent s)))
    × ((s : String) → ¬ ((post_token_audience_update token_env node_request v).0 ≡ ok (sent s)))
confirm_token_retires_example =
    confirm_token_retires token_env node_request "10.0.0.9" "bb" "old" "cached" (pure (sent tt))
      renewed_world renewed_world-cached refl node_request-client refl
