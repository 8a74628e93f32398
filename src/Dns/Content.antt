-- ===== src/Dns/Content.antt =====
-- `validateRecordContent` and the validators of the single record types.
use text.Mathlib.Text.{◌==◌ as str_eq}
use hosting.Common.{
  ℕ, Bool, true, false, not, ◌||◌, Option, none, some, List, [], ◌∷◌, String, Bytes, join, length,
  is_empty, ltb, if◌then◌else◌, is_text,
}
use hosting.Common.Int.{between}
use hosting.Common.Ascii.{split_n, fields, atoi, is_hex, is_base64}
use hosting.Dns.Hostname.{is_valid_hostname}

-- One constructor for each message.
pub data ContentError : Type 0 where
  a_address aaaa_address hostname_content mx_hostname txt_empty txt_long : ContentError
  srv_format srv_weight srv_port srv_target : ContentError
  caa_format caa_flag caa_tag caa_value : ContentError
  tlsa_format tlsa_usage tlsa_selector tlsa_matching tlsa_data : ContentError
  ds_format ds_keytag ds_algorithm ds_digest_type ds_digest : ContentError
  dnskey_format dnskey_flags dnskey_protocol dnskey_algorithm dnskey_key : ContentError
  naptr_format naptr_order naptr_preference : ContentError
  sshfp_format sshfp_algorithm sshfp_type sshfp_data : ContentError
  svcb_format svcb_priority svcb_target loc_empty : ContentError

-- `x, err := strconv.Atoi(s); err == nil && lo <= x && x <= hi`
unfoldable pub is_int_in : ℕ → ℕ → Bytes → Bool
is_int_in lo hi s = elim (atoi s) [ none ↦ false | some n ↦ between lo hi n ]

unfoldable pub is_int : Bytes → Bool
is_int s = elim (atoi s) [ none ↦ false | some n ↦ true ]

-- The error where the test fails, and what follows where it passes.
abbrev pub check : Bool → ContentError → Option ContentError → Option ContentError
check test error rest = if test then rest else some error

abbrev pub is_target : Bytes → Bool
is_target s = is_text "." s || is_valid_hostname s

unfoldable pub srv_parts : List Bytes → Option ContentError
srv_parts (weight ∷ port ∷ target ∷ []) =
    check (is_int_in 0 65535 weight) srv_weight
      (check (is_int_in 0 65535 port) srv_port (check (is_target target) srv_target none))
srv_parts _ = some srv_format

unfoldable pub validate_srv_content : Bytes → Option ContentError
unfolding srv_parts is_int_in fields
validate_srv_content content = srv_parts (fields content)

abbrev pub is_caa_tag : Bytes → Bool
is_caa_tag tag =
    is_text "issue" tag
    || is_text "issuewild" tag
    || is_text "iodef" tag
    || is_text "contactemail" tag
    || is_text "contactphone" tag

caa_parts : List Bytes → Option ContentError
caa_parts (flag ∷ tag ∷ value ∷ _) =
    check (is_int_in 0 255 flag) caa_flag
      (check (is_caa_tag tag) caa_tag (check (not (is_empty value)) caa_value none))
caa_parts _ = some caa_format

unfoldable pub validate_caa_content : Bytes → Option ContentError
unfolding caa_parts is_int_in split_n
validate_caa_content content = caa_parts (split_n 2 b' ' content)

tlsa_parts : List Bytes → Option ContentError
tlsa_parts (usage ∷ selector ∷ matching ∷ cert ∷ []) = check (is_int_in 0 3 usage) tlsa_usage (
    check (is_int_in 0 1 selector) tlsa_selector
      (check (is_int_in 0 2 matching) tlsa_matching (check (is_hex cert) tlsa_data none)))
tlsa_parts _ = some tlsa_format

unfoldable pub validate_tlsa_content : Bytes → Option ContentError
unfolding tlsa_parts is_int_in is_hex fields
validate_tlsa_content content = tlsa_parts (fields content)

ds_parts : List Bytes → Option ContentError
ds_parts (keytag ∷ algorithm ∷ digest_type ∷ digest ∷ []) =
    check (is_int_in 0 65535 keytag) ds_keytag (
      check (is_int algorithm) ds_algorithm
        (check (is_int digest_type) ds_digest_type (check (is_hex digest) ds_digest none)))
ds_parts _ = some ds_format

unfoldable pub validate_ds_content : Bytes → Option ContentError
unfolding ds_parts is_int_in is_int is_hex fields
validate_ds_content content = ds_parts (fields content)

dnskey_parts : List Bytes → Option ContentError
dnskey_parts (flags ∷ protocol ∷ algorithm ∷ key ∷ more) =
    check (is_int_in 0 65535 flags) dnskey_flags (
      check (is_int_in 3 3 protocol) dnskey_protocol (
        check (is_int algorithm) dnskey_algorithm
          (check (is_base64 (join [] (key ∷ more))) dnskey_key none)))
dnskey_parts _ = some dnskey_format

unfoldable pub validate_dnskey_content : Bytes → Option ContentError
unfolding dnskey_parts is_int_in is_int is_base64 fields
validate_dnskey_content content = dnskey_parts (fields content)

naptr_parts : List Bytes → Option ContentError
naptr_parts (order ∷ pref ∷ flags ∷ service ∷ regexp ∷ replacement ∷ more) =
    check (is_int_in 0 65535 order) naptr_order
      (check (is_int_in 0 65535 pref) naptr_preference none)
naptr_parts _ = some naptr_format

unfoldable pub validate_naptr_content : Bytes → Option ContentError
unfolding naptr_parts is_int_in fields
validate_naptr_content content = naptr_parts (fields content)

sshfp_parts : List Bytes → Option ContentError
sshfp_parts (algorithm ∷ fingerprint_type ∷ fingerprint ∷ []) =
    check (is_int_in 1 4 algorithm) sshfp_algorithm (
      check (is_int_in 1 2 fingerprint_type) sshfp_type
        (check (is_hex fingerprint) sshfp_data none))
sshfp_parts _ = some sshfp_format

unfoldable pub validate_sshfp_content : Bytes → Option ContentError
unfolding sshfp_parts is_int_in is_hex fields
validate_sshfp_content content = sshfp_parts (fields content)

svcb_parts : List Bytes → Option ContentError
svcb_parts (priority ∷ target ∷ params) =
    check (is_int priority) svcb_priority (check (is_target target) svcb_target none)
svcb_parts _ = some svcb_format

unfoldable pub validate_svcb_content : Bytes → Option ContentError
unfolding svcb_parts is_int fields
validate_svcb_content content = svcb_parts (fields content)

-- What `net.ParseIP` makes of a text: an address with a 4-byte form (`To4`), another, or none.
pub data Ip : Type 0 where
  v4 v6 : Ip

abbrev is_v4 : Option Ip → Bool
is_v4 (some v4) = true
is_v4 _ = false

abbrev is_v6 : Option Ip → Bool
is_v6 (some v6) = true
is_v6 _ = false

abbrev one_of : String → List String → Bool
one_of s [] = false
one_of s (t ∷ ts) = str_eq s t || one_of s ts

unfoldable pub validate_record_content : (Bytes → Option Ip) → String → Bytes → Option ContentError
validate_record_content parse_ip record_type content =
    if str_eq record_type "A"
    then check (is_v4 (parse_ip content)) a_address none
    else if str_eq record_type "AAAA"
    then check (is_v6 (parse_ip content)) aaaa_address none
    else if one_of record_type ("CNAME" ∷ "NS" ∷ "PTR" ∷ "ALIAS" ∷ "DNAME" ∷ [])
    then check (is_valid_hostname content) hostname_content none
    else if str_eq record_type "MX"
    then check (is_valid_hostname content) mx_hostname none
    else if str_eq record_type "TXT"
    then check (not (is_empty content)) txt_empty
        (check (not (ltb 4096 (length content))) txt_long none)
    else if str_eq record_type "SRV"
    then validate_srv_content content
    else if str_eq record_type "CAA"
    then validate_caa_content content
    else if str_eq record_type "TLSA"
    then validate_tlsa_content content
    else if str_eq record_type "DS"
    then validate_ds_content content
    else if str_eq record_type "DNSKEY"
    then validate_dnskey_content content
    else if str_eq record_type "NAPTR"
    then validate_naptr_content content
    else if str_eq record_type "SSHFP"
    then validate_sshfp_content content
    else if one_of record_type ("HTTPS" ∷ "SVCB" ∷ [])
    then validate_svcb_content content
    else if str_eq record_type "LOC"
    then check (not (is_empty content)) loc_empty none
    else none
