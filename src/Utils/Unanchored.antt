-- ===== src/Utils/Unanchored.antt =====
-- `isIP` of node-lib/lib/utils.js accepts more than addresses: its expression is not anchored.
use Prim.Native.String
use Prim.Native.String.{String}
use Prim.Native.Char.{code}
use text.Mathlib.TextLemmas.{nil-append, cons-append}
use chainpoint_core_erc.Prelude.{
  ◌≡◌, refl, ap, ◌∙◌, ℕ, Bool, true, false, List, [], ◌∷◌, ◌++◌, ◌||◌,
}
use chainpoint_core_erc.Utils.Ip.{codes, is_word, ip_here, ip_from, is_ip}

pub codes-append : (s t : String) → codes (String.◌++◌ s t) ≡ codes s ++ codes t
codes-append String.[] t = ap codes (nil-append t)
codes-append (String.◌∷◌ c s) t =
    ap codes (cons-append c s t) ∙ ap (λ l. code c ∷ l) (codes-append s t)

or-true : (a b : Bool) → b ≡ true → a || b ≡ true
or-true true b h = refl
or-true false b h = h

ip_from-append :
    (b : Bool) (t s : List ℕ) → ip_from false s ≡ true → ip_from b (t ++ b' ' ∷ s) ≡ true
unfolding ip_from
ip_from-append b [] s h = or-true (ip_here b (b' ' ∷ s)) (ip_from false s) h
ip_from-append b (c ∷ t) s h =
    or-true (ip_here b (c ∷ t ++ b' ' ∷ s)) (ip_from (is_word c) (t ++ b' ' ∷ s))
      (ip_from-append (is_word c) t s h)

-- Whatever stands before an address and a space, the whole text is accepted as an IP.
pub is_ip_unanchored :
    (junk ip : String) → is_ip ip ≡ true → is_ip (String.◌++◌ junk (String.◌++◌ " " ip)) ≡ true
unfolding is_ip
is_ip_unanchored junk ip h =
    rw (codes-append junk (String.◌++◌ " " ip), codes-append " " ip)
      (ip_from-append false (codes junk) (codes ip) h)
