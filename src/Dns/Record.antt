-- ===== src/Dns/Record.antt =====
-- `validateRecordPriority` and `ValidateZoneRecord`.
use text.Mathlib.Text.{◌==◌ as str_eq}
use hosting.Common.{Bool, ◌||◌, Option, none, some, String, Bytes, if◌then◌else◌}
use hosting.Common.Int.{ℤ, between}
use hosting.Dns.Hostname.{NameError, validate_record_name}
use hosting.Dns.Content.{ContentError, Ip, validate_record_content}

pub data PriorityError : Type 0 where
  priority_required priority_out_of_range priority_not_allowed : PriorityError

pub data RecordError : Type 0 where
  name_error : NameError → RecordError
  content_error : ContentError → RecordError
  priority_error : PriorityError → RecordError

abbrev in_u16 : ℤ → Option PriorityError
in_u16 n = if between 0 65535 n then none else some priority_out_of_range

required_priority : Option ℤ → Option PriorityError
required_priority none = some priority_required
required_priority (some n) = in_u16 n

optional_priority : Option ℤ → Option PriorityError
optional_priority none = none
optional_priority (some n) = in_u16 n

no_priority : Option ℤ → Option PriorityError
no_priority none = none
no_priority (some n) = some priority_not_allowed

-- `MX, SRV` and `HTTPS, SVCB`
abbrev pub wants_priority : String → Bool
wants_priority t = str_eq t "MX" || str_eq t "SRV"

abbrev pub takes_priority : String → Bool
takes_priority t = str_eq t "HTTPS" || str_eq t "SVCB"

unfoldable pub validate_record_priority : String → Option ℤ → Option PriorityError
unfolding required_priority optional_priority no_priority between
validate_record_priority record_type priority =
    if wants_priority record_type
    then required_priority priority
    else if takes_priority record_type
    then optional_priority priority
    else no_priority priority

-- The first error of the three, in this order.
abbrev pub or_else : Option RecordError → Option RecordError → Option RecordError
or_else (some x) next = some x
or_else none next = next

abbrev pub as_error : {A : Type 0} → (A → RecordError) → Option A → Option RecordError
as_error f none = none
as_error f (some x) = some (f x)

unfoldable pub validate_zone_record :
    (Bytes → Option Ip) → String → Bytes → Bytes → Option ℤ → Option RecordError
validate_zone_record parse_ip record_type name content priority =
    or_else (as_error name_error (validate_record_name name)) (
      or_else (as_error content_error (validate_record_content parse_ip record_type content))
        (as_error priority_error (validate_record_priority record_type priority)))
