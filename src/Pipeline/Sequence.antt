-- ===== src/Pipeline/Sequence.antt =====
-- node-proof-gen-service/server.js: the generator takes calendar batches one after another.
use chainpoint_core_erc.Prelude.{
  ℕ, suc, ◌≡◌, refl, sym, ap, ◌∙◌, ◌⊎◌, inl, inr, true, false, ◌||◌, Option, some, String, List, [],
  ◌∷◌, ◌++◌, map, arith, Bool-cases,
}
use chainpoint_core_erc.Prelude.Lists.{All, includes}
use chainpoint_core_erc.Exec.{ok, pure}
use chainpoint_core_erc.Exec.Steps.{>>=-ok}
use chainpoint_core_erc.World.{World, Stamped, AggRow, CalRow, Settlement, ack}
use chainpoint_core_erc.World.Ops.{Proof}
use chainpoint_core_erc.CachedState.Tables.{find_one}
use chainpoint_core_erc.StateService.{for_each}
use chainpoint_core_erc.StateService.Batches.{flatten}
use chainpoint_core_erc.GenService.Build.{GenEnv}
use chainpoint_core_erc.GenService.{has_repeat, Ready, cal_batch, consume_proof_ready_message}
use chainpoint_core_erc.Endpoints.Proofs.{or_else, returned_proof}
use chainpoint_core_erc.Endpoints.Upserted.{rows, IsKeyed, upsert_all-returned, upsert_all-IsKeyed}
use chainpoint_core_erc.Pipeline.Batch.{
  IsCovered, batch_rows, proof_of, valid_proofs, IsReady, after_batch, batch_lem,
}
use chainpoint_core_erc.Pipeline.Row.{
  agg_key, given, given-cases, given-there, batch_rows-IsOnly, batch_rows-holds,
}

-- The messages of the batches, as the channel delivers them from a tag on.
abbrev pub deliveries : ℕ → List (List String) → List Ready
deliveries n [] = []
deliveries n (b ∷ bs) =
    record { tag = n; type = cal_batch; hash_ids = some b } ∷ deliveries (suc n) bs

-- Every one of them acked, the last one first.
abbrev pub acked : ℕ → List (List String) → List Settlement → List Settlement
acked n [] before = before
acked n (b ∷ bs) before = acked (suc n) bs (ack n ∷ before)

pub includes-append :
    (x : String) (xs ys : List String) → includes x (xs ++ ys) ≡ (includes x xs || includes x ys)
includes-append x [] ys = refl
includes-append x (y ∷ xs) ys = ground (arith, includes-append x xs ys)

-- A ready world with at most one proof for each hash id.
pub record IsLive (content : String → CalRow) (aggs : List (Stamped AggRow))
    (cals : List (Stamped CalRow)) (w : World) : Type 0 where
  pub ready : IsReady content aggs cals w
  pub keyed : IsKeyed w.proofs

-- The proof that a world has for a hash id.
abbrev pub stored : String → World → Option Proof
stored id w = returned_proof id (rows w.proofs)

module _ (env : GenEnv) (content : String → CalRow) (aggs : List (Stamped AggRow))
    (cals : List (Stamped CalRow)) (keyed : (id : String) → (content id).agg_id ≡ id)
    (distinct : has_repeat (map (λ r. r.row.hash_id) aggs) ≡ false) (row : AggRow)
    (found : find_one agg_key row.hash_id aggs ≡ some row)
    (valid : env.is_valid_schema (proof_of env content row) ≡ true) where
  abbrev IsStored : World → Type 0
  IsStored w = stored row.hash_id w ≡ some (proof_of env content row)

  -- One message: where it leaves the world.
  record Took (n : ℕ) (b : List String) (w : World) : Type 0 where
    final : World
    same :
        consume_proof_ready_message env (record { tag = n; type = cal_batch; hash_ids = some b }) w
        ≡ (ok tt, final)
    live : IsLive content aggs cals final
    settled : final.settled ≡ ack n ∷ w.settled
    proof :
        stored row.hash_id final
        ≡ or_else (given env content row (batch_rows b aggs)) (stored row.hash_id w)

  take_lem :
      (n : ℕ) (b : List String) (w : World)
      → IsCovered cals (batch_rows b aggs)
      → IsLive content aggs cals w
      → Took n b w
  unfolding consume_proof_ready_message
  take_lem n b w c l =
      let (es, same, ready) = batch_lem env content aggs cals keyed distinct b c n w l.ready in
      let ps = valid_proofs env content (batch_rows b aggs) in
      record {
        final = after_batch w es ps (ack n ∷ w.settled);
        same = same;
        live = record { ready = ready; keyed = upsert_all-IsKeyed w.clock ps w.proofs l.keyed };
        settled = refl;
        proof = upsert_all-returned row.hash_id w.clock ps w.proofs l.keyed;
      }

  Took-IsStored :
      (n : ℕ) (b : List String) (bs : List (List String)) (w : World) (t : Took n b w)
      → IsStored w ⊎ (includes row.hash_id (b ++ flatten bs) ≡ true)
      → IsStored t.final ⊎ (includes row.hash_id (flatten bs) ≡ true)
  Took-IsStored n b bs w t (inl e) =
      let only = batch_rows-IsOnly row b aggs distinct found in
      inl (
        t.proof
        ∙ ap (or_else (given env content row (batch_rows b aggs))) e
        ∙ elim (given-cases env content row (batch_rows b aggs) only) [
          | inl g ↦ rw g refl
          | inr g ↦ rw g refl
        ])
  Took-IsStored n b bs w t (inr i) = elim (Bool-cases (includes row.hash_id b)) [
    | inl here ↦
        let given_proof =
          given-there env content row (batch_rows b aggs)
            (batch_rows-IsOnly row b aggs distinct found) (batch_rows-holds row b aggs here found)
            valid in
        inl (t.proof ∙ ap (λ o. or_else o (stored row.hash_id w)) given_proof)
    | inr away ↦ inr (sym (includes-append row.hash_id b (flatten bs) ∙ rw away refl) ∙ i)
  ]

  pub record Ran (n : ℕ) (bs : List (List String)) (w : World) : Type 0 where
    pub final : World
    pub same : for_each (consume_proof_ready_message env) (deliveries n bs) w ≡ (ok tt, final)
    pub live : IsLive content aggs cals final
    pub settled : final.settled ≡ acked n bs w.settled
    pub proof : IsStored final

  -- If the row's proof is stored already, or its hash id is in a batch, it is stored in the end.
  pub run_lem :
      (n : ℕ) (bs : List (List String)) (w : World)
      → All (λ b. IsCovered cals (batch_rows b aggs)) bs
      → IsLive content aggs cals w
      → IsStored w ⊎ (includes row.hash_id (flatten bs) ≡ true)
      → Ran n bs w
  unfolding for_each pure
  run_lem n [] w c l (inl e) = record {
    final = w;
    same = refl;
    live = l;
    settled = refl;
    proof = e;
  }
  run_lem n [] w c l (inr e) = absurd (cc e)
  run_lem n (b ∷ bs) w c l s =
      let took = take_lem n b w c.0 l in
      let rest = run_lem (suc n) bs took.final c.1 took.live (Took-IsStored n b bs w took s) in
      record {
        final = rest.final;
        same = >>=-ok _ _ took.same ∙ rest.same;
        live = rest.live;
        settled = rest.settled ∙ ap (acked (suc n) bs) took.settled;
        proof = rest.proof;
      }
