-- ===== src/BtcTx/Numbers.antt =====
-- The numbers of JavaScript and of package bignumber.js, as far as node-btc-tx-service/server.js computes a
-- fee with them.
use chainpoint_core_erc.Prelude.{◌≡◌, ℕ, Bool, false}

pub record Doubles : Type 1 where
  pub Double : Type 0
  pub of_nat : ℕ → Double
  pub greater : Double → Double → Bool
  pub is_truthy : Double → Bool
  pub times : Double → Double → Double
  pub ceil : Double → Double
  -- the literal 1.1
  pub fee_extra : Double
  -- `BigNumber(x).div(1024).times(10 ** 8).toNumber()`
  pub sat_per_byte : Double → Double
  -- `BigNumber(x).div(10 ** 8).toNumber()`
  pub to_btc : Double → Double

-- What IEEE 754 says of comparison with `greater`, of rounding up, and of multiplying by the two
-- positive constants; it holds of infinities too, and of a NaN, which is not greater than a number and
-- than which no number is greater.
pub record IsMonotone (fl : Doubles) : Type 0 where
  pub irreflexive : (x : fl.Double) → fl.greater x x ≡ false
  pub ceil_mono :
      (x y : fl.Double) → fl.greater x y ≡ false → fl.greater (fl.ceil x) (fl.ceil y) ≡ false
  pub extra_mono :
      (x y : fl.Double)
      → fl.greater x y ≡ false
      → fl.greater (fl.times x fl.fee_extra) (fl.times y fl.fee_extra) ≡ false
  pub bytes_mono :
      (x y : fl.Double)
      → fl.greater x y ≡ false
      → fl.greater (fl.times x (fl.of_nat 235)) (fl.times y (fl.of_nat 235)) ≡ false
