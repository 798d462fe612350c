-- ===== src/Eth/Allowed.antt =====
-- node-api-service/lib/endpoints/eth.js: which transactions are broadcast.
use chainpoint_core_erc.Prelude.{
  ◌≡◌, refl, ap, ◌∙◌, Bool, true, false, Option, none, some, String, List, ◌∷◌, ◌⊎◌, inl, inr,
}
use chainpoint_core_erc.Prelude.Lists.{includes}
use chainpoint_core_erc.Exec.{Exec, pure, throw}
use chainpoint_core_erc.UsageToken.{is_hex_tx}
use chainpoint_core_erc.UsageToken.State.{ApiWorld}
use chainpoint_core_erc.UsageToken.Replies.{Reply, invalid_argument, ensure, ensure_some}
use chainpoint_core_erc.Eth.{
  BroadcastResult, Ethers, broadcast, allowed_methods, with_method, post_eth_broadcast,
}
use chainpoint_core_erc.Eth.Broadcast.{broadcast-Sent}

-- What a request whose transaction reaches the network has passed.
pub record IsAllowed (eth : Ethers) (tx : Option String) (w v : ApiWorld) : Type 0 where
  pub raw_tx : String
  pub to : String
  pub methods : List String
  pub name : String
  pub given : tx ≡ some raw_tx
  pub hex : is_hex_tx raw_tx ≡ true
  pub decoded : eth.decode raw_tx ≡ some to
  pub contract : allowed_methods eth to ≡ some methods
  pub method : eth.method_of to raw_tx ≡ some name
  pub allowed : includes name methods ≡ true
  pub broadcast_once : v.eth_txs ≡ raw_tx ∷ w.eth_txs

module _ {R : Type 0} (w : ApiWorld) where
  -- Where an early return is taken, the state stays as it is.
  ensure-or :
      (b : Bool) (r : Reply R) (m : Exec ApiWorld (Reply R))
      → ((ensure b r m w).1 ≡ w) ⊎ ((b ≡ true) × (ensure b r m w ≡ m w))
  unfolding ensure pure
  ensure-or true r m = inr (refl, refl)
  ensure-or false r m = inl refl

  ensure_some-or :
      {A : Type 0} (o : Option A) (r : Reply R) (f : A → Exec ApiWorld (Reply R))
      → ((ensure_some o r f w).1 ≡ w) ⊎ ((a : A) × (o ≡ some a) × (ensure_some o r f w ≡ f a w))
  unfolding ensure_some pure
  ensure_some-or none r f = inl refl
  ensure_some-or (some a) r f = inr (a, refl, refl)

with_method-or :
    (eth : Ethers) (o : Option String) (allowed : List String)
    (m : Exec ApiWorld (Reply BroadcastResult)) (w : ApiWorld)
    → ((with_method eth o allowed m w).1 ≡ w)
      ⊎ ((name : String) × (o ≡ some name)
          × (includes name allowed ≡ true)
          × (with_method eth o allowed m w ≡ m w))
unfolding with_method throw
with_method-or eth none allowed m w = inl refl
with_method-or eth (some name) allowed m w =
    elim (ensure-or w (includes name allowed) invalid_argument m) [
      | inl e ↦ inl e
      | inr (p, e) ↦ inr (name, refl, p, e)
    ]

-- Whatever the request and the outcomes of the calls, either no transaction is broadcast, or one is: the
-- hex text of the request, which decodes to a transaction that calls an allowed method of one of the two
-- contracts.
pub post_eth_broadcast-IsAllowed :
    (eth : Ethers) (tx : Option String) (w : ApiWorld)
    → ((post_eth_broadcast eth tx w).1.eth_txs ≡ w.eth_txs)
      ⊎ IsAllowed eth tx w (post_eth_broadcast eth tx w).1
unfolding post_eth_broadcast
post_eth_broadcast-IsAllowed eth tx w = elim (ensure_some-or w tx invalid_argument _) [
  | inl e ↦ inl (ap (λ v. v.eth_txs) e)
  | inr (raw_tx, given, e) ↦ elim (ensure-or w (is_hex_tx raw_tx) invalid_argument _) [
    | inl e1 ↦ inl (ap (λ x. x.1.eth_txs) e ∙ ap (λ v. v.eth_txs) e1)
    | inr (hex, e1) ↦ elim (ensure_some-or w (eth.decode raw_tx) invalid_argument _) [
      | inl e2 ↦ inl (ap (λ x. x.1.eth_txs) (e ∙ e1) ∙ ap (λ v. v.eth_txs) e2)
      | inr (to, decoded, e2) ↦
          elim (ensure_some-or w (allowed_methods eth to) invalid_argument _) [
            | inl e3 ↦ inl (ap (λ x. x.1.eth_txs) (e ∙ (e1 ∙ e2)) ∙ ap (λ v. v.eth_txs) e3)
            | inr (methods, contract, e3) ↦
                elim (with_method-or eth (eth.method_of to raw_tx) methods (broadcast eth raw_tx to)
                  w) [
                    | inl e4 ↦
                        inl (ap (λ x. x.1.eth_txs) (e ∙ (e1 ∙ (e2 ∙ e3))) ∙ ap (λ v. v.eth_txs) e4)
                    | inr (name, method, allowed, e4) ↦
                        let all = e ∙ (e1 ∙ (e2 ∙ (e3 ∙ e4))) in
                        elim (broadcast-Sent eth raw_tx to w) [
                          | inl s ↦ inl (ap (λ x. x.1.eth_txs) all ∙ s)
                          | inr s ↦ inr (record {
                            raw_tx = raw_tx;
                            to = to;
                            methods = methods;
                            name = name;
                            given = given;
                            hex = hex;
                            decoded = decoded;
                            contract = contract;
                            method = method;
                            allowed = allowed;
                            broadcast_once = ap (λ x. x.1.eth_txs) all ∙ s;
                          })
                        ]
                  ]
          ]
    ]
  ]
]
