-- ===== src/GenService/Verify.antt =====
-- What a generated proof proves: replaying the operations of its branches from the submitted hash
-- gives the values that the calendar and the Bitcoin block hold.
use chainpoint_core_erc.Prelude.{
  ◌≡◌, refl, ap, ◌∙◌, some, String, List, [], ◌∷◌, ◌++◌, if◌then◌else◌,
}
use chainpoint_core_erc.Exec.{ok}
use chainpoint_core_erc.World.{AggRow, CalRow, AnchorBtcAggRow, BtcTxRow, BtcHeadRow}
use chainpoint_core_erc.World.Ops.{
  Op, left, right, op, anchors, Anchor, BtcBranch, CalBranch, Proof,
}
use chainpoint_core_erc.CachedState.Lookup.{lookup_by}
use chainpoint_core_erc.GenService.Build.{
  GenEnv, empty_proof, add_chainpoint_header, add_calendar_branch, add_btc_branch, cal_proof,
  btc_proof, is_mainnet, anchor_of,
}

-- A verifier's bytes: how a value is put before or behind the current one, and the named digests.
pub record Hashing : Type 0 where
  pub prepend : String → String → String
  pub append : String → String → String
  pub digest : String → String → String

abbrev pub step : Hashing → Op → String → String
step h (left v) x = h.prepend v x
step h (right v) x = h.append x v
step h (op name) x = h.digest name x
step h (anchors as_) x = x

-- The value after all operations.
abbrev pub replay : Hashing → List Op → String → String
replay h [] x = x
replay h (o ∷ os) x = replay h os (step h o x)

pub replay-append :
    (h : Hashing) (xs ys : List Op) (x : String)
    → replay h (xs ++ ys) x ≡ replay h ys (replay h xs x)
replay-append h [] ys x = refl
replay-append h (o ∷ os) ys x = replay-append h os ys (step h o x)

-- The operations end in one anchor, of the type and with the id and addresses given.
abbrev pub EndsIn : Anchor → List Op → Type 0
EndsIn a ops = (front : List Op) × (ops ≡ front ++ anchors (a ∷ []) ∷ [])

-- The proof is about the row's hash, and its one branch leads from the hash to `value`.
pub record ProvesCal (h : Hashing) (env : GenEnv) (row : AggRow) (cal : CalRow) (value : String)
    (proof : Proof) : Type 0 where
  pub hash : proof.hash ≡ row.hash
  pub hash_id : proof.hash_id_core ≡ row.hash_id
  pub branch : CalBranch
  pub only : proof.branches ≡ branch ∷ []
  pub label : branch.label ≡ "cal_anchor_branch"
  pub leads : replay h branch.ops proof.hash ≡ value
  pub anchored :
      EndsIn (anchor_of (if is_mainnet env then "cal" else "tcal") cal.cal_state.anchor) branch.ops

-- Below the calendar branch, a Bitcoin branch leads from `value` to `root`.
pub record ProvesBtc (h : Hashing) (env : GenEnv) (row : AggRow) (cal : CalRow) (head : BtcHeadRow)
    (value root : String) (proof : Proof) : Type 0 where
  pub cal_part : ProvesCal h env row cal value proof
  pub branch : BtcBranch
  pub only : cal_part.branch.branches ≡ branch ∷ []
  pub label : branch.label ≡ "btc_anchor_branch"
  pub leads : replay h branch.ops value ≡ root
  pub anchored :
      EndsIn
        (anchor_of (if is_mainnet env then "btc" else "tbtc") head.btchead_state.anchor)
        branch.ops

-- The branches of the two proofs, as the code fills them in.
abbrev cal_branch : GenEnv → AggRow → CalRow → List BtcBranch → CalBranch
cal_branch env row cal below = record {
  label = "cal_anchor_branch";
  ops =
      (row.agg_state.ops ++ cal.cal_state.ops)
      ++ anchors (anchor_of (if is_mainnet env then "cal" else "tcal") cal.cal_state.anchor ∷ [])
        ∷ [];
  branches = below;
}

abbrev btc_branch : GenEnv → AnchorBtcAggRow → BtcTxRow → BtcHeadRow → BtcBranch
btc_branch env aa tx head = record {
  label = "btc_anchor_branch";
  ops =
      (aa.anchor_btc_agg_state.ops ++ tx.btctx_state.ops ++ head.btchead_state.ops)
      ++ anchors
          (anchor_of (if is_mainnet env then "btc" else "tbtc") head.btchead_state.anchor ∷ [])
        ∷ [];
}

abbrev built : GenEnv → AggRow → CalBranch → Proof
built env row branch = record (add_chainpoint_header env empty_proof row.hash row.hash_id) {
  branches = branch ∷ [];
}

module _ (h : Hashing) (env : GenEnv) (row : AggRow) (cal : CalRow) (cal_rows : List CalRow)
    (agg_root value : String) (found : lookup_by (λ c. c.agg_id) row.agg_id cal_rows ≡ some cal)
    (agg_path : replay h row.agg_state.ops row.hash ≡ agg_root)
    (cal_path : replay h cal.cal_state.ops agg_root ≡ value) where
  cal_leads :
      replay h
        ((row.agg_state.ops ++ cal.cal_state.ops)
          ++ anchors
              (anchor_of (if is_mainnet env then "cal" else "tcal") cal.cal_state.anchor ∷ [])
            ∷ [])
        row.hash
      ≡ value
  cal_leads =
      replay-append h (row.agg_state.ops ++ cal.cal_state.ops) _ row.hash
      ∙ replay-append h row.agg_state.ops cal.cal_state.ops row.hash
      ∙ ap (replay h cal.cal_state.ops) agg_path
      ∙ cal_path

  -- Where the row's path leads from its hash to the aggregation root and the calendar row's path
  -- from there to `value`, the calendar proof of the row is built, and leads from the hash to
  -- `value`, ending in the calendar row's anchor, of the network's type.
  pub cal_proof-ProvesCal :
      (proof : Proof) × (cal_proof env cal_rows row ≡ ok proof)
      × ProvesCal h env row cal value proof
  unfolding cal_proof add_calendar_branch add_chainpoint_header
  cal_proof-ProvesCal = (
    built env row (cal_branch env row cal []),
    rw (found) refl,
    record {
      hash = refl;
      hash_id = refl;
      branch = _;
      only = refl;
      label = refl;
      leads = cal_leads;
      anchored = (_, refl);
    },
  )

  module _ (aa : AnchorBtcAggRow) (tx : BtcTxRow) (head : BtcHeadRow)
      (anchor_rows : List AnchorBtcAggRow) (root : String)
      (anchor_found : lookup_by (λ a. a.cal_id) cal.cal_id anchor_rows ≡ some aa)
      (btc_path : replay h
          (aa.anchor_btc_agg_state.ops ++ tx.btctx_state.ops ++ head.btchead_state.ops)
          value
        ≡ root) where
    -- Where moreover the joined paths of the anchor, transaction and head rows lead from `value` to
    -- `root`, the Bitcoin proof is built, has the same calendar branch, and below it a branch that
    -- leads from `value` to `root`, ending in the head row's anchor, of the network's type.
    pub btc_proof-ProvesBtc :
        (proof : Proof) × (btc_proof env cal_rows anchor_rows tx head row ≡ ok proof)
        × ProvesBtc h env row cal head value root proof
    unfolding btc_proof add_btc_branch add_calendar_branch add_chainpoint_header
    btc_proof-ProvesBtc = (
      built env row (cal_branch env row cal (btc_branch env aa tx head ∷ [])),
      rw (found) (rw (anchor_found) refl),
      record {
        cal_part = record {
          hash = refl;
          hash_id = refl;
          branch = _;
          only = refl;
          label = refl;
          leads = cal_leads;
          anchored = (_, refl);
        };
        branch = _;
        only = refl;
        label = refl;
        leads =
            replay-append h
              (aa.anchor_btc_agg_state.ops ++ tx.btctx_state.ops ++ head.btchead_state.ops) _ value
            ∙ btc_path;
        anchored = (_, refl);
      },
    )
