-- ===== src/Common/Ascii.antt =====
-- What the program uses of Go's `strings`, `strconv` and `encoding` on texts of bytes. White space
-- and letters are those of ASCII.
use Prim.Native.Nat.{ℕ, zero, suc, ◌+◌, ◌-◌, ◌*◌, ◌%◌, ◌^◌}
use mathlib.Core.Bool.{Bool, true, false, ◌&&◌, ◌||◌}
use mathlib.Core.Option.{Option, none, some}
use mathlib.Core.List.{List, [], ◌∷◌, reverse}
use hosting.Common.Tests.{leb, ltb, ◌==◌, if◌then◌else◌}
use hosting.Common.Lists.{length, all, is_empty}
use hosting.Common.Text.{Bytes}
use hosting.Common.Int.{ℤ, pos, negsuc}

abbrev pub in_range : ℕ → ℕ → ℕ → Bool
in_range lo hi c = leb lo c && leb c hi

abbrev pub is_digit : ℕ → Bool
is_digit c = in_range b'0' b'9' c

abbrev pub is_space : ℕ → Bool
is_space c = c == b' ' || in_range 9 13 c

-- Puts a byte before the first part.
abbrev pub cons_first : ℕ → List Bytes → List Bytes
cons_first c [] = (c ∷ []) ∷ []
cons_first c (p ∷ ps) = (c ∷ p) ∷ ps

-- `strings.Split(s, sep)` for a separator of one byte.
unfoldable pub split : ℕ → Bytes → List Bytes
split sep [] = [] ∷ []
split sep (c ∷ s) = let rest = split sep s in if c == sep then [] ∷ rest else cons_first c rest

-- `strings.SplitN(s, sep, n + 1)`: at most `n` separators count.
unfoldable pub split_n : ℕ → ℕ → Bytes → List Bytes
split_n zero sep s = s ∷ []
split_n (suc n) sep [] = [] ∷ []
split_n (suc n) sep (c ∷ s) =
    let cut = [] ∷ split_n n sep s in
    let keep = cons_first c (split_n (suc n) sep s) in if c == sep then cut else keep

-- The parts that are not empty.
unfoldable pub non_empty : List Bytes → List Bytes
non_empty [] = []
non_empty ([] ∷ ps) = non_empty ps
non_empty ((c ∷ p) ∷ ps) = (c ∷ p) ∷ non_empty ps

-- White space as the one byte on which `fields` cuts.
unfoldable pub blanked : Bytes → Bytes
blanked [] = []
blanked (c ∷ s) = (if is_space c then b' ' else c) ∷ blanked s

-- `strings.Fields(s)`
unfoldable pub fields : Bytes → List Bytes
unfolding split non_empty blanked
fields s = non_empty (split b' ' (blanked s))

-- The value of a text of digits; `none` at any other byte.
unfoldable pub digits_from : ℕ → Bytes → Option ℕ
digits_from n [] = some n
digits_from n (c ∷ s) =
    let rest = digits_from (n * 10 + (c - b'0')) s in if is_digit c then rest else none

abbrev pub unsigned : Bytes → Option ℕ
unsigned [] = none
unsigned (c ∷ s) = digits_from 0 (c ∷ s)

abbrev int_pos : Option ℕ → Option ℤ
int_pos none = none
int_pos (some n) = if ltb n (2 ^ 63) then some (pos n) else none

abbrev int_neg : Option ℕ → Option ℤ
int_neg none = none
int_neg (some zero) = some (pos 0)
int_neg (some (suc n)) = if ltb n (2 ^ 63) then some (negsuc n) else none

-- `strconv.Atoi(s)` at 64 bits; `none` is its error.
unfoldable pub atoi : Bytes → Option ℤ
unfolding digits_from
atoi [] = none
atoi (c ∷ s) =
    if c == b'-'
    then int_neg (unsigned s)
    else if c == b'+'
    then int_pos (unsigned s)
    else int_pos (unsigned (c ∷ s))

abbrev is_hex_digit : ℕ → Bool
is_hex_digit c = is_digit c || in_range b'a' b'f' c || in_range b'A' b'F' c

-- Whether `hex.DecodeString(s)` has no error.
unfoldable pub is_hex : Bytes → Bool
is_hex s = all is_hex_digit s && length s % 2 == 0

abbrev is_base64_digit : ℕ → Bool
is_base64_digit c =
    is_digit c || in_range b'a' b'z' c || in_range b'A' b'Z' c || c == b'+' || c == b'/'

unfoldable pub without_line_ends : Bytes → Bytes
without_line_ends [] = []
without_line_ends (c ∷ s) =
    let rest = without_line_ends s in if c == b'\n' || c == b'\r' then rest else c ∷ rest

-- Groups of four digits, of which the last may end in one or two `=`.
unfoldable pub base64_groups : Bytes → Bool
base64_groups [] = true
base64_groups (a ∷ b ∷ c ∷ d ∷ s) =
    let rest = base64_groups s in
    is_base64_digit a
    && is_base64_digit b
    && (is_base64_digit c && is_base64_digit d && rest
        || is_base64_digit c && d == b'=' && is_empty s
        || c == b'=' && d == b'=' && is_empty s)
base64_groups _ = false

-- Whether `base64.StdEncoding.DecodeString(s)` has no error.
unfoldable pub is_base64 : Bytes → Bool
unfolding without_line_ends base64_groups
is_base64 s = base64_groups (without_line_ends s)

unfoldable pub has_prefix : Bytes → Bytes → Bool
has_prefix [] s = true
has_prefix (c ∷ p) [] = false
has_prefix (c ∷ p) (d ∷ s) = c == d && has_prefix p s

-- `strings.Contains(s, part)`
unfoldable pub contains : Bytes → Bytes → Bool
unfolding has_prefix
contains [] part = has_prefix part []
contains (c ∷ s) part = has_prefix part (c ∷ s) || contains s part

unfoldable pub trim_left : Bytes → Bytes
trim_left [] = []
trim_left (c ∷ s) = if is_space c then trim_left s else c ∷ s

-- `strings.TrimSpace`
unfoldable pub trim_space : Bytes → Bytes
unfolding trim_left
trim_space s = reverse (trim_left (reverse (trim_left s)))
