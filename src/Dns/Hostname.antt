-- ===== src/Dns/Hostname.antt =====
-- `isValidLabel`, `isValidHostname` and `validateRecordName`.
use hosting.Common.{
  ℕ, Bool, false, not, ◌&&◌, ◌||◌, Option, none, some, [], ◌∷◌, Bytes, length, all, is_empty, ltb,
  ◌==◌, if◌then◌else◌, is_text,
}
use hosting.Common.Ascii.{in_range, split}

pub data NameError : Type 0 where
  wildcard_alone not_dns_name : NameError

abbrev pub hyphen : ℕ
hyphen = b'-'

abbrev pub dot : ℕ
dot = b'.'

-- The bytes that the loop of `isValidLabel` lets pass.
unfoldable pub is_label_byte : ℕ → Bool
is_label_byte c =
    in_range b'a' b'z' c || in_range b'A' b'Z' c || in_range b'0' b'9' c || c == hyphen || c == b'_'

unfoldable pub ends_with : ℕ → Bytes → Bool
ends_with b [] = false
ends_with b (c ∷ []) = c == b
ends_with b (c ∷ d ∷ s) = ends_with b (d ∷ s)

abbrev pub starts_with : ℕ → Bytes → Bool
starts_with b [] = false
starts_with b (c ∷ s) = c == b

unfoldable pub is_valid_label : Bytes → Bool
is_valid_label label =
    let n = length label in
    if n == 0 || ltb 63 n
    then false
    else if starts_with hyphen label || ends_with hyphen label
    then false
    else all is_label_byte label

-- `strings.TrimSuffix(s, ".")`
unfoldable pub trim_dot : Bytes → Bytes
trim_dot [] = []
trim_dot (c ∷ []) = if c == dot then [] else c ∷ []
trim_dot (c ∷ d ∷ s) = c ∷ trim_dot (d ∷ s)

unfoldable pub is_valid_hostname : Bytes → Bool
unfolding trim_dot is_valid_label is_label_byte ends_with split
is_valid_hostname s =
    if is_empty s || ltb 253 (length s)
    then false
    else let t = trim_dot s in if is_empty t then false else all is_valid_label (split dot t)

-- The name behind `*.`, or the name.
abbrev pub unwildcarded : Bytes → Bytes
unwildcarded [] = []
unwildcarded (c ∷ []) = c ∷ []
unwildcarded (c ∷ d ∷ s) = if c == b'*' && d == dot then s else c ∷ d ∷ s

abbrev pub has_wildcard : Bytes → Bool
has_wildcard [] = false
has_wildcard (c ∷ []) = false
has_wildcard (c ∷ d ∷ s) = c == b'*' && d == dot

-- `none` is the nil error.
unfoldable pub validate_record_name : Bytes → Option NameError
validate_record_name name =
    if is_text "@" name || is_text "*" name
    then none
    else let check = unwildcarded name in
      if has_wildcard name && is_empty check
      then some wildcard_alone
      else if not (is_valid_hostname check)
      then some not_dns_name
      else none
