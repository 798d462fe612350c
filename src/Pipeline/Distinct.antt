-- ===== src/Pipeline/Distinct.antt =====
-- Keys that are distinct stay so in a part of the list.
use chainpoint_core_erc.Prelude.{◌≡◌, refl, ap, Bool, false, String, List, [], ◌∷◌, map, arith}
use chainpoint_core_erc.Prelude.Lists.{filter_by, includes}
use chainpoint_core_erc.GenService.{has_repeat}

pub map-compose :
    {A B C : Type 0} (f : A → B) (g : B → C) (xs : List A)
    → map g (map f xs) ≡ map (λ x. g (f x)) xs
map-compose f g [] = refl
map-compose f g (x ∷ xs) = ap (λ ys. g (f x) ∷ ys) (map-compose f g xs)

module _ {A : Type 0} (key : A → String) (p : A → Bool) where
  not_includes-filter_by :
      (k : String) (xs : List A)
      → includes k (map key xs) ≡ false
      → includes k (map key (filter_by p xs)) ≡ false
  not_includes-filter_by k [] h = h
  not_includes-filter_by k (x ∷ xs) h = ground (arith, not_includes-filter_by k xs)

  pub has_repeat-filter_by :
      (xs : List A)
      → has_repeat (map key xs) ≡ false
      → has_repeat (map key (filter_by p xs)) ≡ false
  has_repeat-filter_by [] h = h
  has_repeat-filter_by (x ∷ xs) h =
      ground (arith, has_repeat-filter_by xs, not_includes-filter_by (key x) xs)
