-- ===== src/CachedState/Cache.antt =====
-- The Redis commands of node-lib/lib/models/cachedProofState.js, over the keys of one prefix.
use chainpoint_core_erc.Prelude.{
  ℕ, ◌+◌, ◌*◌, not, Option, none, some, String, List, [], ◌∷◌, ◌==◌, ◌&&◌, ltb, if◌then◌else◌,
}
use chainpoint_core_erc.Prelude.Lists.{filter_by}
use chainpoint_core_erc.World.{Entry}

module _ {V : Type 0} where
  -- `GET key`: an entry is gone once its time has come
  unfoldable pub cache_get : ℕ → String → List (Entry V) → Option V
  cache_get now k [] = none
  cache_get now k (e ∷ es) =
      if e.key == k && ltb now e.expires_at then some e.value else cache_get now k es

  -- `SET key value EX seconds`
  unfoldable pub cache_set : ℕ → ℕ → String → V → List (Entry V) → List (Entry V)
  cache_set now seconds k v es =
      record { key = k; value = v; expires_at = now + seconds * 1000 }
      ∷ filter_by (λ e. not (e.key == k)) es

  -- `SET key value EX seconds NX`: only if the key is not set
  unfoldable pub cache_set_nx : ℕ → ℕ → String → V → List (Entry V) → List (Entry V)
  unfolding cache_get cache_set
  cache_set_nx now seconds k v es = elim (cache_get now k es) [
    | none ↦ cache_set now seconds k v es
    | some _ ↦ es
  ]
