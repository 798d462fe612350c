-- ===== src/Utils/Ip.antt =====
-- `isIP` of node-lib/lib/utils.js: the regular expression is searched anywhere in the text, between word
-- boundaries. `octet` gives what is left of a text after each way to match an octet at its start.
use Prim.Native.Char.{code}
use Prim.Native.String.{String}
use chainpoint_core_erc.Prelude.{
  ℕ, Bool, true, false, not, List, [], ◌∷◌, ◌++◌, ◌&&◌, ◌||◌, leb, eqb, if◌then◌else◌,
}
use chainpoint_core_erc.Prelude.Lists.{flat_map}

-- The code units of a text.
abbrev pub codes : String → List ℕ
codes String.[] = []
codes (String.◌∷◌ c s) = code c ∷ codes s

abbrev pub between : ℕ → ℕ → ℕ → Bool
between lo hi c = leb lo c && leb c hi

abbrev pub is_digit : ℕ → Bool
is_digit = between b'0' b'9'

-- `\w`
abbrev pub is_word : ℕ → Bool
is_word c = is_digit c || between b'a' b'z' c || between b'A' b'Z' c || eqb c b'_'

-- One character of a class, and what follows.
unfoldable pub one : (ℕ → Bool) → List ℕ → List (List ℕ)
one p [] = []
one p (c ∷ s) = if p c then s ∷ [] else []

abbrev pub char : ℕ → List ℕ → List (List ℕ)
char k = one (λ c. eqb c k)

-- `25[0-5]|2[0-4][0-9]|1[0-9][0-9]|[1-9]?[0-9]`
unfoldable pub octet : List ℕ → List (List ℕ)
octet s =
    flat_map (one (between b'0' b'5')) (flat_map (char b'5') (char b'2' s))
    ++ flat_map (one is_digit) (flat_map (one (between b'0' b'4')) (char b'2' s))
    ++ flat_map (one is_digit) (flat_map (one is_digit) (char b'1' s))
    ++ flat_map (one is_digit) (one (between b'1' b'9') s)
    ++ one is_digit s

unfoldable pub octet_dot : List ℕ → List (List ℕ)
octet_dot s = flat_map (char b'.') (octet s)

unfoldable pub dotted_quad : List ℕ → List (List ℕ)
dotted_quad s = flat_map octet (flat_map octet_dot (flat_map octet_dot (octet_dot s)))

-- `\b` after a character of a word
abbrev pub ends_word : List ℕ → Bool
ends_word [] = true
ends_word (c ∷ s) = not (is_word c)

abbrev pub any_ends_word : List (List ℕ) → Bool
any_ends_word [] = false
any_ends_word (s ∷ ss) = ends_word s || any_ends_word ss

-- `\b` before, where `in_word` says whether the character before is one of a word
unfoldable pub ip_here : Bool → List ℕ → Bool
ip_here in_word s = not in_word && any_ends_word (dotted_quad s)

unfoldable pub ip_from : Bool → List ℕ → Bool
ip_from in_word [] = false
ip_from in_word (c ∷ s) = ip_here in_word (c ∷ s) || ip_from (is_word c) s

unfoldable pub is_ip : String → Bool
is_ip s = ip_from false (codes s)
