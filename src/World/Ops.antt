-- ===== src/World/Ops.antt =====
-- The Chainpoint v3 proof object and its operations, as node-proof-gen-service/server.js builds it.
use chainpoint_core_erc.Prelude.{String, List}

-- `{ anchor_id, uris }` of a calendar or head state.
pub record StateAnchor : Type 0 where
  pub anchor_id : String
  pub uris : List String

-- `{ type, anchor_id, uris }` of a finished proof.
pub record Anchor : Type 0 where
  pub type : String
  pub anchor_id : String
  pub uris : List String

-- `{ l }`, `{ r }`, `{ op }` and `{ anchors }`.
pub data Op : Type 0 where
  left right op : String → Op
  anchors : List Anchor → Op

pub record BtcBranch : Type 0 where
  pub label : String
  pub ops : List Op

-- A branch with no `branches` field has the empty list.
pub record CalBranch : Type 0 where
  pub label : String
  pub ops : List Op
  pub branches : List BtcBranch

pub record Proof : Type 0 where
  pub context : String
  pub type : String
  pub hash : String
  pub hash_id_node : String
  pub hash_submitted_node_at : String
  pub hash_id_core : String
  pub hash_submitted_core_at : String
  pub branches : List CalBranch
