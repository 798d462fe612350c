-- ===== src/Tests/Gen.antt =====
-- The proof generation service.
use chainpoint_core_erc.Prelude.{◌≡◌, refl, true, false, some, [], ◌∷◌}
use chainpoint_core_erc.Exec.{ok, gets, pure, try_catch, ◌>>=◌}
use chainpoint_core_erc.World.{World, ack, done, refused}
use chainpoint_core_erc.World.Calls.{call, query}
use chainpoint_core_erc.CachedState.{
  get_agg_state_objects_by_hash_ids, get_cal_state_objects_by_agg_ids,
}
use chainpoint_core_erc.CachedState.Bulk.{get_objects_by_ids, fetch_missing, read_cache}
use chainpoint_core_erc.CachedState.Tables.{find_in}
use chainpoint_core_erc.World.Ops.{Proof}
use chainpoint_core_erc.StateService.Settled.{IsSettledOnce}
use chainpoint_core_erc.GenService.{ReadyType, consume_proof_ready_message}
use chainpoint_core_erc.GenService.Build.{
  GenEnv, cal_proof, btc_proof, empty_proof, map_result, add_calendar_branch, add_chainpoint_header,
}
use chainpoint_core_erc.GenService.Verify.{
  Hashing, ProvesCal, ProvesBtc, cal_proof-ProvesCal, btc_proof-ProvesBtc,
}
use chainpoint_core_erc.GenService.Settled.{
  consume_proof_ready_message_settles_once, consume_proof_ready_message_unstored, IsRead,
}
use chainpoint_core_erc.Tests.Data.{cal_world, agg_row, cal_row, anchor_row, btctx_row, btchead_row}

abbrev pub env : GenEnv
env = record {
  network = "mainnet";
  submitted_at = λ id. "2019-05-01T00:00:00Z";
  is_valid_schema = λ p. true;
}

-- Digests that keep track of nothing but their last name.
abbrev pub toy : Hashing
toy = record { prepend = λ v x. v; append = λ x v. x; digest = λ name x. name }

consume_proof_ready_message_settles_once_example :
    IsSettledOnce 9
      (record cal_world { outcomes = refused ∷ [] })
      (consume_proof_ready_message env
        (record { tag = 9; type = ReadyType.cal_batch; hash_ids = some ("h1" ∷ []) })
        (record cal_world { outcomes = refused ∷ [] })).1
consume_proof_ready_message_settles_once_example =
    consume_proof_ready_message_settles_once env 9 ReadyType.cal_batch ("h1" ∷ [])
      (record cal_world { outcomes = refused ∷ [] }) refl

-- Without Redis the two reads are two calls; the write is the third.
abbrev refusing_world : World
refusing_world = record cal_world { redis = false; outcomes = done ∷ done ∷ refused ∷ [] }

abbrev built_proof : Proof
built_proof =
    add_calendar_branch env (add_chainpoint_header env empty_proof agg_row.hash agg_row.hash_id)
      agg_row.agg_state cal_row.cal_state

refusing_world-IsRead :
    IsRead env ("h1" ∷ []) refusing_world (record refusing_world { outcomes = refused ∷ [] })
unfolding get_agg_state_objects_by_hash_ids get_cal_state_objects_by_agg_ids get_objects_by_ids
    fetch_missing read_cache cal_proof map_result find_in query call gets pure try_catch ◌>>=◌
refusing_world-IsRead = record {
  agg_rows = agg_row ∷ [];
  cal_rows = cal_row ∷ [];
  proofs = built_proof ∷ [];
  between = record refusing_world { outcomes = done ∷ refused ∷ [] };
  read_agg = refl;
  read_cal = refl;
  built = refl;
}

consume_proof_ready_message_unstored_example :
    let w' =
      (consume_proof_ready_message env
        (record { tag = 9; type = ReadyType.cal_batch; hash_ids = some ("h1" ∷ []) })
        refusing_world).1 in
    (w'.settled ≡ ack 9 ∷ []) × (w'.proofs ≡ [])
consume_proof_ready_message_unstored_example =
    consume_proof_ready_message_unstored env 9 ("h1" ∷ []) [] refusing_world
      (record refusing_world { outcomes = refused ∷ [] }) refl refusing_world-IsRead refl

cal_proof-ProvesCal_example :
    (proof : Proof) × (cal_proof env (cal_row ∷ []) agg_row ≡ ok proof)
    × ProvesCal toy env agg_row cal_row "sha-256" proof
cal_proof-ProvesCal_example =
    cal_proof-ProvesCal toy env agg_row cal_row (cal_row ∷ []) "sha-256" "sha-256" refl refl refl

btc_proof-ProvesBtc_example :
    (proof : Proof) × (btc_proof env (cal_row ∷ []) (anchor_row ∷ []) btctx_row btchead_row agg_row
      ≡ ok proof)
    × ProvesBtc toy env agg_row cal_row btchead_row "sha-256" "sha-256-x2" proof
btc_proof-ProvesBtc_example =
    btc_proof-ProvesBtc toy env agg_row cal_row (cal_row ∷ []) "sha-256" "sha-256" refl refl refl
      anchor_row btctx_row btchead_row (anchor_row ∷ []) "sha-256-x2" refl refl
