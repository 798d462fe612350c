-- ===== src/StateService/Loop.antt =====
-- Loops that await an action on each item.
use chainpoint_core_erc.Prelude.{List, [], ◌∷◌}
use chainpoint_core_erc.Exec.{Exec}
use chainpoint_core_erc.Exec.Keeps.{Preorder, Keeps, Keeps-bind, keeps_rules}
use chainpoint_core_erc.World.{World}
use chainpoint_core_erc.StateService.{for_each}

pub for_each-Keeps :
    {r : Preorder World} {A B : Type 0} (f : A → Exec World B) (xs : List A)
    → ((a : A) → Keeps r (f a))
    → Keeps r (for_each f xs)
unfolding for_each
for_each-Keeps f [] h = search keeps_rules
for_each-Keeps f (x ∷ xs) h = Keeps-bind (f x) _ (h x) (λ _. for_each-Keeps f xs h)
