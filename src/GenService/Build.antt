-- ===== src/GenService/Build.antt =====
-- Building a proof from its state rows: `addChainpointHeader`, `addCalendarBranch` and `addBtcBranch`
-- of node-proof-gen-service/server.js, and the bodies of the two `map` calls.
use chainpoint_core_erc.Prelude.{
  Bool, Option, none, some, String, List, [], ◌∷◌, ◌++◌, ◌==◌, if◌then◌else◌,
}
use chainpoint_core_erc.Exec.{Result, ok, err, type_error, syntax_error}
use chainpoint_core_erc.World.{
  OpsState, AnchorState, AggRow, CalRow, AnchorBtcAggRow, BtcTxRow, BtcHeadRow,
}
use chainpoint_core_erc.World.Ops.{StateAnchor, Anchor, anchors, BtcBranch, CalBranch, Proof}
use chainpoint_core_erc.CachedState.Lookup.{lookup_by}

-- What the service takes from its environment: the network setting, the time in a version 1 UUID
-- (packages uuid-time and utils.formatDateISO8601NoMs), and the JSON schema of proofs (package
-- chainpoint-proof-json-schema).
pub record GenEnv : Type 0 where
  pub network : String
  pub submitted_at : String → String
  pub is_valid_schema : Proof → Bool

abbrev pub is_mainnet : GenEnv → Bool
is_mainnet env = env.network == "mainnet"

-- `{}`
abbrev pub empty_proof : Proof
empty_proof = record {
  context = "";
  type = "";
  hash = "";
  hash_id_node = "";
  hash_submitted_node_at = "";
  hash_id_core = "";
  hash_submitted_core_at = "";
  branches = [];
}

unfoldable pub add_chainpoint_header : GenEnv → Proof → String → String → Proof
add_chainpoint_header env proof hash hash_id = record proof {
  context = "https://w3id.org/chainpoint/v3";
  type = "Chainpoint";
  hash = hash;
  hash_id_node = hash_id;
  hash_submitted_node_at = env.submitted_at hash_id;
  hash_id_core = hash_id;
  hash_submitted_core_at = env.submitted_at hash_id;
}

abbrev pub anchor_of : String → StateAnchor → Anchor
anchor_of type a = record { type = type; anchor_id = a.anchor_id; uris = a.uris }

unfoldable pub add_calendar_branch : GenEnv → Proof → OpsState → AnchorState → Proof
add_calendar_branch env proof agg_state cal_state =
    let calendar_anchor = anchor_of (if is_mainnet env then "cal" else "tcal") cal_state.anchor in
    record proof {
      branches =
          record {
            label = "cal_anchor_branch";
            ops = (agg_state.ops ++ cal_state.ops) ++ anchors (calendar_anchor ∷ []) ∷ [];
            branches = [];
          }
          ∷ [];
    }

-- `proof.branches[0].branches = …`
abbrev pub set_first_branches : List BtcBranch → List CalBranch → Result (List CalBranch)
set_first_branches btc [] = err type_error
set_first_branches btc (b ∷ bs) = ok (record b { branches = btc } ∷ bs)

abbrev pub with_branches : Proof → Result (List CalBranch) → Result Proof
with_branches proof (ok bs) = ok (record proof { branches = bs })
with_branches proof (err e) = err e

unfoldable pub add_btc_branch : GenEnv → Proof → OpsState → OpsState → AnchorState → Result Proof
add_btc_branch env proof anchor_btc_agg_state btctx_state btchead_state =
    let btc_anchor = anchor_of (if is_mainnet env then "btc" else "tbtc") btchead_state.anchor in
    let btc_branch : BtcBranch = record {
      label = "btc_anchor_branch";
      ops =
          (anchor_btc_agg_state.ops ++ btctx_state.ops ++ btchead_state.ops)
          ++ anchors (btc_anchor ∷ []) ∷ [];
    } in
    with_branches proof (set_first_branches (btc_branch ∷ []) proof.branches)

-- The proof of one row with its calendar row; `JSON.parse(undefined)` is a syntax error.
abbrev pub cal_proof_with : GenEnv → AggRow → Option CalRow → Result Proof
cal_proof_with env row none = err syntax_error
cal_proof_with env row (some cal) = ok (
    add_calendar_branch env (add_chainpoint_header env empty_proof row.hash row.hash_id)
      row.agg_state cal.cal_state)

unfoldable pub cal_proof : GenEnv → List CalRow → AggRow → Result Proof
cal_proof env cal_rows row = cal_proof_with env row (lookup_by (λ c. c.agg_id) row.agg_id cal_rows)

abbrev pub btc_proof_with :
    GenEnv → AggRow → BtcTxRow → BtcHeadRow → CalRow → Option AnchorBtcAggRow → Result Proof
btc_proof_with env row tx head cal none = err syntax_error
btc_proof_with env row tx head cal (some aa) =
    add_btc_branch env
      (add_calendar_branch env (add_chainpoint_header env empty_proof row.hash row.hash_id)
        row.agg_state cal.cal_state)
      aa.anchor_btc_agg_state tx.btctx_state head.btchead_state

-- `calStateLookup[…].state` of undefined is a type error.
abbrev pub btc_proof_of :
    GenEnv → List AnchorBtcAggRow → BtcTxRow → BtcHeadRow → AggRow → Option CalRow → Result Proof
btc_proof_of env anchor_rows tx head row none = err type_error
btc_proof_of env anchor_rows tx head row (some cal) =
    btc_proof_with env row tx head cal (lookup_by (λ a. a.cal_id) cal.cal_id anchor_rows)

unfoldable pub btc_proof :
    GenEnv → List CalRow → List AnchorBtcAggRow → BtcTxRow → BtcHeadRow → AggRow → Result Proof
btc_proof env cal_rows anchor_rows tx head row =
    btc_proof_of env anchor_rows tx head row (lookup_by (λ c. c.agg_id) row.agg_id cal_rows)

abbrev pub cons_result : {B : Type 0} → Result B → Result (List B) → Result (List B)
cons_result (err e) rs = err e
cons_result (ok b) (err e) = err e
cons_result (ok b) (ok bs) = ok (b ∷ bs)

-- `rows.map(f)` where `f` may throw
unfoldable pub map_result : {A B : Type 0} → (A → Result B) → List A → Result (List B)
map_result f [] = ok []
map_result f (x ∷ xs) = cons_result (f x) (map_result f xs)
