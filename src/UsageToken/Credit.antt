-- ===== src/UsageToken/Credit.antt =====
-- usage-token.js: what a token that a credit gives says.
use chainpoint_core_erc.Utils.{get_client_ip}
use chainpoint_core_erc.Prelude.{
  ◌≡◌, refl, subst, ℕ, ◌+◌, ◌*◌, ◌≤◌, ◌<◌, true, not, Option, none, some, String, List, ◌∷◌, ◌==◌,
  ltb, eq_iff, arith,
}
use chainpoint_core_erc.Exec.{type_error, ok, throw, Exec, gets, pure, try_catch, ◌>>=◌}
use chainpoint_core_erc.UsageToken.State.{number, ApiWorld}
use chainpoint_core_erc.UsageToken.TokenUtils.{TokenEnv, now_seconds}
use chainpoint_core_erc.UsageToken.Checks.{TokenRequest, is_valid_aud}
use chainpoint_core_erc.UsageToken.Replies.{
  Reply, sent, invalid_argument, bad_request, ensure, ensure_some,
}
use chainpoint_core_erc.UsageToken.Calls.{called, execute}
use chainpoint_core_erc.UsageToken.{
  Method, EthTx, EthEnv, with_amount, with_purchase, broadcast_eth, purchased_balance, issue_credit,
  post_token_credit, is_hex_tx,
}
use chainpoint_core_erc.UsageToken.Inversion.{
  gives, GivesToken, ensure-GivesToken, ensure_some-GivesToken, with_aud-GivesToken,
}
use chainpoint_core_erc.UsageToken.Refresh.{IsIssued, issue-GivesToken}
use chainpoint_core_erc.UsageToken.Audience.{activate_token-GivesToken}

-- `raw_tx` is a call of the token contract's `purchaseUsage` with at least 10^8 units.
pub record IsPurchase (eth : EthEnv) (raw_tx : String) (spend_amount : ℕ) : Type 0 where
  pub tx : EthTx
  pub method : Method
  pub parsed : eth.parse_transaction raw_tx ≡ some tx
  pub to_contract : tx.to ≡ eth.token_contract_address
  pub method_eq : tx.method ≡ some method
  pub method_name : method.name ≡ "purchaseUsage"
  pub amount : method.amount ≡ some spend_amount
  pub enough : 100000000 ≤ spend_amount

not-ltb_le : (a b : ℕ) → not (ltb a b) ≡ true → b ≤ a
not-ltb_le a b h = ground arith

module _ {s : String × ApiWorld} (w : ApiWorld) where
  amount-GivesToken :
      (o : Option ℕ) (f : ℕ → Exec ApiWorld (Reply String))
      → GivesToken s
          (elim o [
            | none ↦ throw type_error
            | some n ↦ ensure (not (ltb n 100000000)) invalid_argument (f n)
          ])
          w
      → (n : ℕ) × (o ≡ some n) × (100000000 ≤ n) × GivesToken s (f n) w
  unfolding throw
  amount-GivesToken none f h = absurd (cc h)
  amount-GivesToken (some n) f h =
      let (p, k) = ensure-GivesToken w (not (ltb n 100000000)) invalid_argument (f n) refl h in
      (n, refl, not-ltb_le n 100000000 p, k)

  with_amount-GivesToken :
      (o : Option Method) (f : ℕ → Exec ApiWorld (Reply String))
      → GivesToken s (with_amount o f) w
      → (m : Method) × (n : ℕ) × (o ≡ some m)
        × (m.name ≡ "purchaseUsage")
        × (m.amount ≡ some n)
        × (100000000 ≤ n)
        × GivesToken s (f n) w
  unfolding with_amount throw
  with_amount-GivesToken none f h = absurd (cc h)
  with_amount-GivesToken (some m) f h =
      let (p, k) = ensure-GivesToken w (m.name == "purchaseUsage") invalid_argument _ refl h in
      let (n, a, b, k') = amount-GivesToken m.amount f k in
      (m, n, refl, (eq_iff m.name "purchaseUsage").0 p, a, b, k')

  with_purchase-GivesToken :
      (eth : EthEnv) (req : TokenRequest) (f : String → ℕ → Exec ApiWorld (Reply String))
      → GivesToken s (with_purchase eth req f) w
      → (raw_tx : String) × (n : ℕ) × (req.raw_tx ≡ some raw_tx)
        × IsPurchase eth raw_tx n
        × GivesToken s (f raw_tx n) w
  unfolding with_purchase
  with_purchase-GivesToken eth req f h =
      let (r, e, k) = ensure_some-GivesToken w req.raw_tx invalid_argument _ refl h in
      let (_, k') = ensure-GivesToken w (is_hex_tx r) invalid_argument _ refl k in
      let (tx, e', k'') =
        ensure_some-GivesToken w (eth.parse_transaction r) invalid_argument _ refl k' in
      let (c, k3) =
        ensure-GivesToken w (tx.to == eth.token_contract_address) invalid_argument _ refl k'' in
      let (m, n, e3, name, a, b, k4) = with_amount-GivesToken tx.method (f r) k3 in
      (
        r,
        n,
        e,
        record {
          tx = tx;
          method = m;
          parsed = e';
          to_contract = (eq_iff tx.to eth.token_contract_address).0 c;
          method_eq = e3;
          method_name = name;
          amount = a;
          enough = b;
        },
        k4,
      )

  broadcast_eth-GivesToken :
      (raw_tx : String) (m : Exec ApiWorld (Reply String))
      → GivesToken s (broadcast_eth raw_tx m) w
      → GivesToken s m (record (called w) { eth_txs = raw_tx ∷ w.eth_txs })
  unfolding broadcast_eth execute try_catch pure ◌>>=◌ ensure_some
  broadcast_eth-GivesToken raw_tx m h = ground arith

issue_credit-GivesToken :
    {s : String × ApiWorld} (env : TokenEnv) (ip : String) (aud : List String) (n : ℕ)
    (w : ApiWorld)
    → GivesToken s (issue_credit env ip aud n) w
    → IsIssued env ip aud
        (number (now_seconds w + 60 * 60))
        (number (purchased_balance n))
        (number 3)
        s.0
unfolding issue_credit gets ◌>>=◌
issue_credit-GivesToken env ip aud n w h =
    let (t, issued, v, k) = issue-GivesToken env ip aud _ _ _ _ w h in
    subst (IsIssued env ip aud _ _ _) (activate_token-GivesToken env ip t v k) issued

-- What a credit promises for the token `s` that it gives.
pub record IsCredit (env : TokenEnv) (eth : EthEnv) (req : TokenRequest) (w : ApiWorld) (s : String)
    : Type 0 where
  pub aud : List String
  pub ip : String
  pub raw_tx : String
  pub spend_amount : ℕ
  pub balance : ℕ
  pub aud_given : req.aud ≡ some aud
  pub aud_valid : is_valid_aud env aud ≡ true
  pub client : get_client_ip req.addresses ≡ some ip
  pub tx_given : req.raw_tx ≡ some raw_tx
  pub purchase : IsPurchase eth raw_tx spend_amount
  pub balance_bounds :
      ((balance + 1) * 10000000 ≤ spend_amount) × (spend_amount < (balance + 11) * 10000000)
  pub issued : IsIssued env ip aud (number (now_seconds w + 60 * 60)) (number balance) (number 3) s

purchased_balance_bounds :
    (n : ℕ)
    → 100000000 ≤ n
    → ((purchased_balance n + 1) * 10000000 ≤ n) × (n < (purchased_balance n + 11) * 10000000)
purchased_balance_bounds n h = (omega arith, omega arith)

-- Whatever the outcomes of the calls, a token that a credit gives was asked for with a purchase at the
-- token contract of at least 10^8 units; it is for the client and the audience that was asked for,
-- expires in an hour, and its balance and the one credit that is used at once cost at most what was
-- spent, at 10^7 units for a credit, and less than ten credits short of it.
pub post_token_credit_charges :
    (env : TokenEnv) (eth : EthEnv) (req : TokenRequest) (w : ApiWorld) (s : String)
    → (post_token_credit env eth req w).0 ≡ ok (sent s)
    → IsCredit env eth req w s
unfolding post_token_credit
post_token_credit_charges env eth req w s h =
    let (aud, a, v, k) =
      with_aud-GivesToken w env req _ (gives (post_token_credit env eth req) w h) in
    let (raw_tx, n, e, purchase, k') = with_purchase-GivesToken w eth req _ k in
    let (ip, c, k'') =
      ensure_some-GivesToken w (get_client_ip req.addresses) bad_request _ refl k' in
    record {
      aud = aud;
      ip = ip;
      raw_tx = raw_tx;
      spend_amount = n;
      balance = purchased_balance n;
      aud_given = a;
      aud_valid = v;
      client = c;
      tx_given = e;
      purchase = purchase;
      balance_bounds = purchased_balance_bounds n purchase.enough;
      issued = issue_credit-GivesToken env ip aud n _ (broadcast_eth-GivesToken w raw_tx _ k'');
    }
