-- ===== src/Utils/Ops.antt =====
-- `formatAsChainpointV3Ops` of node-lib/lib/utils.js: the operations of a proof that stand for a path of a
-- Merkle tree.
use chainpoint_core_erc.Prelude.{◌≡◌, refl, String, List, [], ◌∷◌, ◌++◌}
use chainpoint_core_erc.World.Ops.{Op, left, right, op}
use chainpoint_core_erc.GenService.Verify.{Hashing, replay, replay-append}

-- `{ left }` or `{ right }` of a path (package merkle-tools); neither is empty.
pub data PathItem : Type 0 where
  at_left at_right : String → PathItem

abbrev pub v3_item : PathItem → Op
v3_item (at_left h) = left h
v3_item (at_right h) = right h

-- the loop of `reduce`, which pushes two operations for each item
unfoldable pub push_ops : String → List Op → List PathItem → List Op
push_ops name result [] = result
push_ops name result (item ∷ items) = push_ops name (result ++ v3_item item ∷ op name ∷ []) items

unfoldable pub format_as_chainpoint_v3_ops : List PathItem → String → List Op
format_as_chainpoint_v3_ops proof name = push_ops name [] proof

-- What a path says: from a leaf, each item is joined at its side, and the pair is hashed.
abbrev pub climb : Hashing → String → List PathItem → String → String
climb h name [] x = x
climb h name (at_left v ∷ items) x = climb h name items (h.digest name (h.prepend v x))
climb h name (at_right v ∷ items) x = climb h name items (h.digest name (h.append x v))

push_ops-replay :
    (h : Hashing) (name : String) (result : List Op) (items : List PathItem) (x : String)
    → replay h (push_ops name result items) x ≡ climb h name items (replay h result x)
unfolding push_ops
push_ops-replay h name result [] x = refl
push_ops-replay h name result (at_left v ∷ items) x =
    rw
      (
        push_ops-replay h name (result ++ left v ∷ op name ∷ []) items x,
        replay-append h result (left v ∷ op name ∷ []) x,
      )
      refl
push_ops-replay h name result (at_right v ∷ items) x =
    rw
      (
        push_ops-replay h name (result ++ right v ∷ op name ∷ []) items x,
        replay-append h result (right v ∷ op name ∷ []) x,
      )
      refl

-- Replaying the operations of a path from a leaf gives what climbing the path gives.
pub format_as_chainpoint_v3_ops-replay :
    (h : Hashing) (name : String) (proof : List PathItem) (x : String)
    → replay h (format_as_chainpoint_v3_ops proof name) x ≡ climb h name proof x
unfolding format_as_chainpoint_v3_ops
format_as_chainpoint_v3_ops-replay h name proof x = push_ops-replay h name [] proof x
