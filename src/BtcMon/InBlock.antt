-- ===== src/BtcMon/InBlock.antt =====
-- node-btc-mon-service/server.js: a message that is built is about a transaction of its block.
use chainpoint_core_erc.Prelude.{
  ◌≡◌, refl, sym, ap, ap₂, ◌∙◌, ℕ, Bool, true, false, Option, none, some, List, [], ◌∷◌, ◌==◌,
  if◌then◌else◌, ◌&&◌, eq_iff, arith,
}
use chainpoint_core_erc.Exec.{type_error, Result, ok, err}
use chainpoint_core_erc.BtcMon.{
  Hex, MonEnv, MonMessage, TxStats, BlockStats, eq_hex, index_of, reverse_hex, reverse_all,
  build_message, with_index, with_leaves, with_root,
}

-- The message is about a transaction of its block, and its path is that of the transaction in a tree
-- over the reversed ids whose root, reversed, is the block's.
pub record IsInBlock (env : MonEnv) (tx_stats : TxStats) (block : BlockStats) (m : MonMessage)
    : Type 0 where
  pub tx_index : ℕ
  pub leaves : List Hex
  pub at_index : index_of tx_stats.tx_id block.tx ≡ some tx_index
  pub leaves_eq : reverse_all block.tx ≡ ok leaves
  pub root_eq : reverse_hex (env.btc_root leaves) ≡ ok block.merkle_root
  pub message_eq : m ≡ record {
    btctx_id = tx_stats.tx_id;
    btchead_height = block.height;
    btchead_root = block.merkle_root;
    path = env.btc_path leaves tx_index;
  }

and-true : (a b : Bool) → a && b ≡ true → (a ≡ true) × (b ≡ true)
and-true a b h = ground arith

eq_hex-eq : (x y : Hex) → eq_hex x y ≡ true → x ≡ y
eq_hex-eq [] [] h = refl
eq_hex-eq [] (b ∷ y) h = absurd (cc h)
eq_hex-eq (a ∷ x) [] h = absurd (cc h)
eq_hex-eq (a ∷ x) (b ∷ y) h =
    let (p, q) = and-true (a == b) (eq_hex x y) h in
    ap₂ (λ c cs. c ∷ cs) ((eq_iff a b).0 p) (eq_hex-eq x y q)

if-ok :
    (c : Bool) (a m : MonMessage)
    → (if c then ok a else err type_error) ≡ ok m
    → (c ≡ true) × (a ≡ m)
if-ok true a m h = (refl, cc h)
if-ok false a m h = absurd (cc h)

module _ (env : MonEnv) (s : TxStats) (b : BlockStats) (m : MonMessage) where
  with_root-eq :
      (i : ℕ) (leaves : List Hex) (r : Result Hex)
      → with_root env s b i leaves r ≡ ok m
      → (r ≡ ok b.merkle_root)
        × (m ≡ record {
          btctx_id = s.tx_id;
          btchead_height = b.height;
          btchead_root = b.merkle_root;
          path = env.btc_path leaves i;
        })
  with_root-eq i leaves (err e) h = absurd (cc h)
  with_root-eq i leaves (ok root) h =
      let (p, q) = if-ok (eq_hex root b.merkle_root) _ m h in
      let e = eq_hex-eq root b.merkle_root p in
      (
        ap ok e,
        sym q
            ∙ ap
                (λ r. record {
                  btctx_id = s.tx_id;
                  btchead_height = b.height;
                  btchead_root = r;
                  path = env.btc_path leaves i;
                })
                e,
      )

  with_leaves-eq :
      (i : ℕ) (r : Result (List Hex))
      → index_of s.tx_id b.tx ≡ some i
      → r ≡ reverse_all b.tx
      → with_leaves env s b i r ≡ ok m
      → IsInBlock env s b m
  with_leaves-eq i (err e) x q h = absurd (cc h)
  with_leaves-eq i (ok []) x q h = absurd (cc h)
  with_leaves-eq i (ok (l ∷ ls)) x q h =
      let (r, e) = with_root-eq i (l ∷ ls) (reverse_hex (env.btc_root (l ∷ ls))) h in
      record {
        tx_index = i;
        leaves = l ∷ ls;
        at_index = x;
        leaves_eq = sym q;
        root_eq = r;
        message_eq = e;
      }

  with_index-eq :
      (o : Option ℕ) → index_of s.tx_id b.tx ≡ o → with_index env s b o ≡ ok m → IsInBlock env s b m
  with_index-eq none x h = absurd (cc h)
  with_index-eq (some i) x h = with_leaves-eq i (reverse_all b.tx) x refl h

  pub build_message-eq : build_message env s b ≡ ok m → IsInBlock env s b m
  unfolding build_message
  build_message-eq h = with_index-eq (index_of s.tx_id b.tx) refl h
