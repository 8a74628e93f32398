-- ===== src/Tests/Zones.antt =====
-- DNS records.
use hosting.Common.{true, Bytes, codes, Option, none, some, ◌≡◌, ◌↔◌}
use hosting.Common.Int.{pos}
use hosting.Dns.Hostname.{is_valid_hostname}
use hosting.Dns.Content.{Ip, v4, validate_record_content}
use hosting.Dns.Record.{validate_zone_record}
use hosting.Dns.Labels.{IsHostname, is_valid_hostname_iff}
use hosting.Dns.Priority.{FitsPriority}
use hosting.Dns.Accepts.{IsRecordName, validate_zone_record_iff}

abbrev test_ip : Bytes → Option Ip
test_ip s = some v4

validate_zone_record_iff_example :
    (validate_zone_record test_ip "MX" (codes "@") (codes "mail.example.org.") (some (pos 10))
      ≡ none)
    ↔ (IsRecordName (codes "@")
        × (validate_record_content test_ip "MX" (codes "mail.example.org.") ≡ none)
        × FitsPriority "MX" (some (pos 10)))
validate_zone_record_iff_example =
    validate_zone_record_iff test_ip "MX" (codes "@") (codes "mail.example.org.") (some (pos 10))

is_valid_hostname_iff_example :
    (is_valid_hostname (codes "www.example.org") ≡ true) ↔ IsHostname (codes "www.example.org")
is_valid_hostname_iff_example = is_valid_hostname_iff (codes "www.example.org")
