-- ===== src/CachedState/Laws.antt =====
-- The rows and the cache of a table are two fields of the world.
use chainpoint_core_erc.Prelude.{◌≡◌, refl, List}
use chainpoint_core_erc.World.{World, Stamped, Entry}
use chainpoint_core_erc.World.Calls.{called}
use chainpoint_core_erc.CachedState.Cached.{CachedTable, cal_table, anchor_btc_agg_table}

pub record IsLawful {A V : Type 0} (t : CachedTable A V) : Type 0 where
  pub rows-set_rows : (rs : List (Stamped A)) (w : World) → t.rows (t.set_rows rs w) ≡ rs
  pub rows-set_cache : (es : List (Entry V)) (w : World) → t.rows (t.set_cache es w) ≡ t.rows w
  pub rows-called : (w : World) → t.rows (called w) ≡ t.rows w
  pub cache-set_rows : (rs : List (Stamped A)) (w : World) → t.cache (t.set_rows rs w) ≡ t.cache w
  pub cache-set_cache : (es : List (Entry V)) (w : World) → t.cache (t.set_cache es w) ≡ es
  pub cache-called : (w : World) → t.cache (called w) ≡ t.cache w

pub cal_table-IsLawful : IsLawful cal_table
cal_table-IsLawful = record {
  rows-set_rows = λ rs w. refl;
  rows-set_cache = λ es w. refl;
  rows-called = λ w. refl;
  cache-set_rows = λ rs w. refl;
  cache-set_cache = λ es w. refl;
  cache-called = λ w. refl;
}

pub anchor_btc_agg_table-IsLawful : IsLawful anchor_btc_agg_table
anchor_btc_agg_table-IsLawful = record {
  rows-set_rows = λ rs w. refl;
  rows-set_cache = λ es w. refl;
  rows-called = λ w. refl;
  cache-set_rows = λ rs w. refl;
  cache-set_cache = λ es w. refl;
  cache-called = λ w. refl;
}
