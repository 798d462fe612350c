-- ===== src/Endpoints/Peers.antt =====
-- node-api-service/lib/endpoints/peers.js: the addresses of the peers that others can reach.
use chainpoint_core_erc.Prelude.{
  ℕ, suc, ◌-◌, Bool, false, not, Option, none, some, List, [], ◌∷◌, map, eqb, leb, ◌&&◌, ◌||◌,
  if◌then◌else◌,
}
use chainpoint_core_erc.Prelude.Lists.{take, drop, filter_by}
use chainpoint_core_erc.Utils.Ip.{codes}
use chainpoint_core_erc.ParseEnv.Validators.{eq_codes}
use chainpoint_core_erc.Endpoints.Rpc.{Answer, Peer, RpcClient, get_net_info}
use chainpoint_core_erc.Endpoints.{reply_of}

abbrev plus_one : Option ℕ → Option ℕ
plus_one none = none
plus_one (some n) = some (suc n)

-- The position of the first or the last `c`; -1 is `none`.
abbrev pub index_of : ℕ → List ℕ → Option ℕ
index_of c [] = none
index_of c (d ∷ s) = let later = plus_one (index_of c s) in if eqb d c then some 0 else later

abbrev pub last_index_of : ℕ → List ℕ → Option ℕ
last_index_of c [] = none
last_index_of c (d ∷ s) = elim (last_index_of c s) [
  | some n ↦ some (suc n)
  | none ↦ if eqb d c then some 0 else none
]

-- `substring` takes a negative position for 0, and swaps two that are out of order.
abbrev pub position : Option ℕ → ℕ
position none = 0
position (some n) = n

abbrev pub slice : ℕ → ℕ → List ℕ → List ℕ
slice first last s = take (last - first) (drop first s)

unfoldable pub substring : ℕ → ℕ → List ℕ → List ℕ
substring a b s = if leb a b then slice a b s else slice b a s

-- What stands before the first dot.
unfoldable pub first_octet : List ℕ → List ℕ
first_octet ip = substring 0 (position (index_of b'.' ip)) ip

unfoldable pub is_private : List ℕ → Bool
is_private ip =
    let octet = first_octet ip in
    eq_codes octet (codes "10") || eq_codes octet (codes "172") || eq_codes octet (codes "192")

-- `listenAddr.includes('//')`
abbrev pub has_slashes : List ℕ → Bool
has_slashes [] = false
has_slashes (c ∷ []) = false
has_slashes (c ∷ d ∷ s) = eqb c b'/' && eqb d b'/' || has_slashes (d ∷ s)

abbrev pub after : Option ℕ → ℕ
after none = 0
after (some n) = suc n

unfoldable pub listen_ip : List ℕ → List ℕ
listen_ip addr =
    let colon = position (last_index_of b':' addr) in
    if has_slashes addr
    then substring (after (last_index_of b'/' addr)) colon addr
    else substring 0 colon addr

unfoldable pub peer_ip : Peer → List ℕ
peer_ip peer = if is_private peer.remote_ip then listen_ip peer.listen_addr else peer.remote_ip

unfoldable pub is_routable : List ℕ → Bool
is_routable ip = not (eq_codes (first_octet ip) (codes "0")) && not (is_private ip)

abbrev pub decoded_peers : List Peer → List (List ℕ)
decoded_peers peers = filter_by is_routable (map peer_ip peers)

unfoldable pub get_peers : RpcClient → Answer (List (List ℕ))
get_peers client =
    reply_of "Resource not found" "Could not query for net info" decoded_peers (get_net_info client)
