-- ===== src/Endpoints/Candidates.antt =====
-- node-api-service/lib/endpoints/nodes.js: which transactions the listed reward candidates come from.
use Prim.Native.String
use chainpoint_core_erc.Prelude.{
  ◌≡◌, refl, ap, ℕ, Bool, true, false, Option, none, some, String, List, [], ◌∷◌, inl, inr, map,
  if◌then◌else◌, Bool-cases, arith, eqb, ◌<◌, not, ◌&&◌, ◌++◌, subst, ◌==◌, eq_iff, sym, ◌∙◌,
}
use chainpoint_core_erc.Prelude.Lists.{includes}
use chainpoint_core_erc.Endpoints.Rpc.{
  Code, minus, plus, Returned, thrown, parse_rpc_error, Response, result, error, returned,
  RpcClient, respond_rpc, get_tx_search, get_abci_info,
}
use chainpoint_core_erc.Endpoints.Nodes.{
  http, distinct_from, distinct, read_all, NodesEnv, candidates_of, reward_candidates,
}

-- No text stands twice in the list, or in both.
abbrev pub Fresh : List String → List String → Type 0
Fresh seen [] = Unit
Fresh seen (x ∷ xs) = (includes x seen ≡ false) × Fresh (x ∷ seen) xs

distinct_from-Fresh : (seen xs : List String) → Fresh seen (distinct_from seen xs)
distinct_from-Fresh seen [] = tt
distinct_from-Fresh seen (x ∷ xs) = elim (Bool-cases (includes x seen)) [
  | inl e ↦ rw e (distinct_from-Fresh seen xs)
  | inr e ↦ rw e (e, distinct_from-Fresh (x ∷ seen) xs)
]

-- The address by which a Node is listed.
abbrev pub uri_of_ip : String → String
uri_of_ip ip = String.◌++◌ "http://" ip

-- The IPs of the transactions, one after the other.
pub data ReadFrom (node_ips : String → Option (List String))
    : List String → List String → Type 0 where
  done : ReadFrom node_ips [] []
  tx :
      {t : String} {ips : List String} {ts rest : List String}
      → node_ips t ≡ some ips
      → ReadFrom node_ips ts rest
      → ReadFrom node_ips (t ∷ ts) (ips ++ rest)

-- The addresses of the Nodes that the transactions of the last epoch with a reward name: an address
-- is listed exactly if a transaction names its IP, and once.
pub record AreCandidates (env : NodesEnv) (client : RpcClient) (uris : List String) : Type 0 where
  pub info : String
  pub epoch : ℕ
  pub txs : List String
  pub ips : List String
  pub public_network : env.private_network ≡ false
  pub answered_info : client.abci_info ≡ returned info
  pub of_epoch : env.prev_epoch info ≡ some epoch
  pub later : 0 < epoch
  pub found : client.tx_search (env.tag_of epoch) 1 25 ≡ returned txs
  pub read : ReadFrom env.node_ips txs ips
  pub listed : (uri : String) → includes uri uris ≡ includes uri (map uri_of_ip ips)
  pub once : Fresh [] uris

and_true : (b : Bool) → (b && true) ≡ b
and_true true = refl
and_true false = refl

includes-distinct_from :
    (uri : String) (seen xs : List String)
    → includes uri (distinct_from seen xs) ≡ (includes uri xs && not (includes uri seen))
includes-distinct_from uri seen [] = refl
includes-distinct_from uri seen (x ∷ xs) = elim (Bool-cases (uri == x)) [
  | inl q ↦
      let there = ap (λ t. includes t seen) ((eq_iff uri x).0 q) in
      elim (Bool-cases (includes x seen)) [
        | inl e ↦ rw (e, q) (includes-distinct_from uri seen xs ∙ rw (there, e) ground arith)
        | inr e ↦ rw (e, q, there, e) refl
      ]
  | inr q ↦ elim (Bool-cases (includes x seen)) [
    | inl e ↦ rw (e, q) (includes-distinct_from uri seen xs)
    | inr e ↦ rw (e, q) (includes-distinct_from uri (x ∷ seen) xs ∙ rw q refl)
  ]
]

map-http_append : (xs ys : List String) → map http (xs ++ ys) ≡ map http xs ++ map http ys
map-http_append [] ys = refl
map-http_append (x ∷ xs) ys = ap (λ zs. http x ∷ zs) (map-http_append xs ys)

read_one :
    (o rest : Option (List String)) (uris : List String)
    → elim o as (λ _. Option (List String)) [
      | none ↦ none
      | some ips ↦ elim rest [ none ↦ none | some others ↦ some (map http ips ++ others) ]
    ]
      ≡ some uris
    → (ips others : List String) × (o ≡ some ips)
      × (rest ≡ some others)
      × (uris ≡ map http ips ++ others)
read_one none rest uris h = absurd (cc h)
read_one (some ips) none uris h = absurd (cc h)
read_one (some ips) (some others) uris h = (ips, others, refl, refl, cc h)

read_all-ReadFrom :
    (node_ips : String → Option (List String)) (txs uris : List String)
    → read_all node_ips txs ≡ some uris
    → (ips : List String) × ReadFrom node_ips txs ips × (uris ≡ map http ips)
read_all-ReadFrom node_ips [] uris h = ([], done, cc h)
read_all-ReadFrom node_ips (t ∷ txs) uris h =
    let (ips, others, e, r, same) = read_one (node_ips t) (read_all node_ips txs) uris h in
    let (rest, from, same') = read_all-ReadFrom node_ips txs others r in
    (
      ips ++ rest,
      tx e from,
      same ∙ ap (λ us. map http ips ++ us) same' ∙ sym (map-http_append ips rest),
    )

parse_rpc_error-not_result :
    {A : Type 0} (code : Option Code) (t : Option String) (a : A)
    → ¬ (parse_rpc_error (record { code = code; data_text = t }) ≡ result a)
unfolding parse_rpc_error
parse_rpc_error-not_result none t a h = absurd (cc h)
parse_rpc_error-not_result (some (plus n)) t a h = absurd (cc h)
parse_rpc_error-not_result (some (minus n)) t a h = elim (Bool-cases (eqb n 32603)) [
  | inl e ↦ absurd (cc (h, e))
  | inr e ↦ elim (Bool-cases (eqb n 32602)) [
    | inl e' ↦ absurd (cc (h, e, e'))
    | inr e' ↦ absurd (cc (h, e, e'))
  ]
]

respond_rpc-result :
    {A : Type 0} (x : Returned A) (a : A) → respond_rpc x ≡ result a → x ≡ returned a
unfolding respond_rpc
respond_rpc-result (returned b) a h = cc h
respond_rpc-result (thrown e) a h = absurd (parse_rpc_error-not_result e.code e.data_text a h)

module _ (env : NodesEnv) (client : RpcClient) (uri : String) (uris : List String) where
  read_distinct :
      (o : Option (List String))
      → elim o as (λ _. List String) [ none ↦ [] | some us ↦ distinct us ] ≡ uri ∷ uris
      → (us : List String) × (o ≡ some us) × (distinct us ≡ uri ∷ uris)
  read_distinct none h = absurd (cc h)
  read_distinct (some us) h = (us, refl, h)

  -- A list of candidates that is not empty was read from a search that succeeded.
  searched :
      (r : Response (List String))
      → elim r as (λ _. List String) [
        | error c m ↦ []
        | result txs ↦ elim (read_all env.node_ips txs) [ none ↦ [] | some us ↦ distinct us ]
      ]
        ≡ uri ∷ uris
      → (txs us : List String) × (r ≡ result txs)
        × (read_all env.node_ips txs ≡ some us)
        × (distinct us ≡ uri ∷ uris)
  searched (error c m) h = absurd (cc h)
  searched (result txs) h =
      let (us, e, d) = read_distinct (read_all env.node_ips txs) h in (txs, us, refl, e, d)

  of_epoch :
      (o : Option ℕ)
      → elim o as (λ _. List String) [
        | none ↦ []
        | some epoch ↦ if eqb epoch 0 then [] else candidates_of env client epoch
      ]
        ≡ uri ∷ uris
      → (epoch : ℕ) × (o ≡ some epoch) × (0 < epoch) × (candidates_of env client epoch ≡ uri ∷ uris)
  of_epoch none h = absurd (cc h)
  of_epoch (some epoch) h = elim (Bool-cases (eqb epoch 0)) [
    | inl e ↦ absurd (cc (h, e))
    | inr e ↦ (epoch, refl, ground arith, cc (h, e))
  ]

  of_info :
      (r : Response String)
      → elim r as (λ _. List String) [
        | error c m ↦ []
        | result info ↦ elim (env.prev_epoch info) [
          | none ↦ []
          | some epoch ↦ if eqb epoch 0 then [] else candidates_of env client epoch
        ]
      ]
        ≡ uri ∷ uris
      → (info : String) × (epoch : ℕ) × (r ≡ result info)
        × (env.prev_epoch info ≡ some epoch)
        × (0 < epoch)
        × (candidates_of env client epoch ≡ uri ∷ uris)
  of_info (error c m) h = absurd (cc h)
  of_info (result info) h =
      let (epoch, e, later, found) = of_epoch (env.prev_epoch info) h in
      (info, epoch, refl, e, later, found)

  pub listed_candidates :
      env.private_network ≡ false
      → reward_candidates env client ≡ uri ∷ uris
      → AreCandidates env client (uri ∷ uris)
  unfolding reward_candidates candidates_of get_abci_info get_tx_search distinct
  listed_candidates public_network h =
      let (info, epoch, got, of_it, later, h') = of_info (get_abci_info client) h in
      let (txs, us, found, all, d) = searched (get_tx_search client (env.tag_of epoch) 1 25) h' in
      let (ips, from, same) = read_all-ReadFrom env.node_ips txs us all in
      record {
        info = info;
        epoch = epoch;
        txs = txs;
        ips = ips;
        public_network = public_network;
        answered_info = respond_rpc-result client.abci_info info got;
        of_epoch = of_it;
        later = later;
        found = respond_rpc-result (client.tx_search (env.tag_of epoch) 1 25) txs found;
        read = from;
        listed = λ x.
            ap (includes x) (sym d)
            ∙ includes-distinct_from x [] us
            ∙ ap (λ xs. includes x xs && true) same
            ∙ and_true (includes x (map http ips));
        once = subst (Fresh []) d (distinct_from-Fresh [] us);
      }
