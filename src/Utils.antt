-- ===== src/Utils.antt =====
-- node-lib/lib/utils.js. A date is its number of milliseconds, and the text of a date without
-- milliseconds is the number of its second.
pub mod Ip
pub mod Unanchored
pub mod Ops
use Prim.Native.String.{String}
use chainpoint_core_erc.Prelude.{
  ℕ, zero, suc, ◌+◌, ◌*◌, ◌/◌, ◌%◌, Bool, true, false, Option, none, some, List, [], ◌∷◌, ◌==◌,
  ◌&&◌, ◌||◌, leb, eqb, starts_with, if◌then◌else◌,
}
use chainpoint_core_erc.Prelude.Lists.{length}
use chainpoint_core_erc.Utils.Ip.{codes, between, is_digit}

unfoldable pub add_seconds : ℕ → ℕ → ℕ
add_seconds date seconds = date + seconds * 1000

unfoldable pub add_minutes : ℕ → ℕ → ℕ
add_minutes date minutes = date + minutes * 60000

unfoldable pub format_date_iso8601_no_ms : ℕ → ℕ
format_date_iso8601_no_ms date = date / 1000

-- `[0-9a-f]`, in either case
abbrev pub is_hex_digit : ℕ → Bool
is_hex_digit c = is_digit c || between b'a' b'f' c || between b'A' b'F' c

-- `toLowerCase`, of an ASCII character
abbrev pub lower : ℕ → ℕ
lower c = if between b'A' b'Z' c then c + 32 else c

abbrev pub all_hex : List ℕ → Bool
all_hex [] = true
all_hex (c ∷ s) = is_hex_digit c && all_hex s

abbrev pub has_even_length : List ℕ → Bool
has_even_length s = eqb (length s % 2) 0

unfoldable pub is_hex : String → Bool
is_hex value =
    leb 2 (length (codes value)) && all_hex (codes value) && has_even_length (codes value)

-- `slice(n)`
abbrev pub slice_from : ℕ → String → String
slice_from zero s = s
slice_from (suc n) String.[] = String.[]
slice_from (suc n) (String.◌∷◌ c s) = slice_from n s

-- `replace(pattern, '')`, of the first place where it stands
unfoldable pub remove_first : String → String → String
remove_first pattern String.[] = String.[]
remove_first pattern (String.◌∷◌ c s) =
    if starts_with (String.◌∷◌ c s) pattern
    then slice_from (length (codes pattern)) (String.◌∷◌ c s)
    else String.◌∷◌ c (remove_first pattern s)

-- The three places of a request where the client's address may stand; `none` is missing or empty.
pub record Addresses : Type 0 where
  pub forwarded_for : Option String
  pub connection_address : Option String
  pub socket_address : Option String

abbrev pub first_of : {A : Type 0} → Option A → Option A → Option A
first_of (some a) o = some a
first_of none o = o

abbrev pub non_empty : String → Option String
non_empty s = if s == "" then none else some s

abbrev pub stripped : Option String → Option String
stripped none = none
stripped (some ip) = non_empty (remove_first "::ffff:" ip)

unfoldable pub get_client_ip : Addresses → Option String
get_client_ip a =
    stripped (first_of a.forwarded_for (first_of a.connection_address a.socket_address))
