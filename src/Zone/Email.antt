-- ===== src/Zone/Email.antt =====
-- The platform's records for mail and for service host names (internal/activity/dns.go).
use hosting.Common.{
  ℕ, Bool, false, not, ◌&&◌, ◌||◌, Bytes, codes, bytes_eq, is_text, join, Option, none, some, List,
  [], ◌∷◌, ◌++◌, any, is_empty, if◌then◌else◌, ltb,
}
use hosting.Common.Ascii.{split, trim_space}
use hosting.Common.Int.{ℤ, pos}
use hosting.Common.Result.{Result, ok, err}
use hosting.Zone.Stores.{
  ZoneRecord, Fqdn, Server, M, pure, ◌>>=◌, ◌>>◌, attempt, ignore, wrap, query, for_each,
}
use hosting.Zone.PowerDns.{delete_dns_record, get_dns_zone_id_by_name}
use hosting.Zone.Auto.{AutoRecordDef, find_zone_for_fqdn, create_auto_record, delete_rows}

-- `for _, p := range parts { if p = strings.TrimSpace(p); p != "" { ... } }`
unfoldable pub spf_includes : List Bytes → List Bytes
spf_includes [] = []
spf_includes (p ∷ ps) =
    let rest = spf_includes ps in
    let t = trim_space p in if is_empty t then rest else (codes "include:" ++ t) ∷ rest

unfoldable pub spf_of_includes : List Bytes → Bytes
spf_of_includes [] = codes "v=spf1 mx ~all"
spf_of_includes (i ∷ is) = codes "v=spf1 mx " ++ (join (codes " ") (i ∷ is) ++ codes " ~all")

unfoldable pub build_spf_record : Bytes → Bytes
unfolding spf_includes spf_of_includes
build_spf_record includes =
    if is_empty includes
    then codes "v=spf1 mx ~all"
    else spf_of_includes (spf_includes (split b',' includes))

-- `AutoCreateEmailDNSRecordsParams`
pub record EmailParams : Type 0 where
  pub fqdn : Bytes
  pub mail_hostname : Bytes
  pub spf_includes : Bytes
  pub dkim_selector : Bytes
  pub dkim_public_key : Bytes
  pub dmarc_policy : Bytes
  pub source_fqdn_id : Bytes

-- A record of 300 seconds.
abbrev pub auto_def : Bytes → ℕ → Bytes → Bytes → Bytes → Option ℤ → Bytes → Bytes → AutoRecordDef
auto_def zone domain fqdn kind content priority source_type source = record {
  zone_name = zone;
  domain_id = domain;
  fqdn = fqdn;
  record_type = kind;
  content = content;
  ttl = pos 300;
  priority = priority;
  source_type = source_type;
  source_fqdn_id = source;
}

-- `if test { if err := ...; err != nil { return err } }`
abbrev pub when : Bool → M (Unit {0}) → M (Unit {0})
when test m = if test then m else pure tt

unfoldable pub auto_create_email_dns_records : Server → EmailParams → M (Unit {0})
auto_create_email_dns_records srv p = do
  zone ← wrap (codes "find zone for fqdn: ") (find_zone_for_fqdn srv p.fqdn)
  if is_empty zone then pure tt else do
    domain ← wrap (codes "get dns zone id: ") (get_dns_zone_id_by_name srv zone)
    let text = λ (name content source_type : Bytes).
        create_auto_record srv
          (auto_def zone domain name (codes "TXT") content none source_type p.source_fqdn_id)
    when (not (is_empty p.mail_hostname)) (
        wrap (codes "create MX record: ") (
          create_auto_record srv (
            auto_def zone domain p.fqdn (codes "MX") p.mail_hostname (some (pos 10))
              (codes "email-mx") p.source_fqdn_id)))
    wrap (codes "create SPF record: ")
        (text p.fqdn (build_spf_record p.spf_includes) (codes "email-spf"))
    when (not (is_empty p.dkim_selector) && not (is_empty p.dkim_public_key)) (
        wrap (codes "create DKIM record: ") (
          text (p.dkim_selector ++ (codes "._domainkey." ++ p.fqdn))
            (codes "v=DKIM1; k=rsa; p=" ++ p.dkim_public_key) (codes "email-dkim")))
    when (not (is_empty p.dmarc_policy)) (
        wrap (codes "create DMARC record: ")
          (text (codes "_dmarc." ++ p.fqdn) p.dmarc_policy (codes "email-dmarc")))

-- A name and a type.
pub record RecordKey : Type 0 where
  pub name : Bytes
  pub kind : Bytes

-- `SELECT id FROM fqdns WHERE fqdn = $1 LIMIT 1`
unfoldable pub fqdn_id : Bytes → List Fqdn → Option Bytes
fqdn_id name [] = none
fqdn_id name (f ∷ fs) = if bytes_eq f.fqdn name then some f.id else fqdn_id name fs

-- An equation with NULL on a side does not hold.
unfoldable pub same_id : Option Bytes → Option Bytes → Bool
same_id (some a) (some b) = bytes_eq a b
same_id (some a) none = false
same_id none o = false

-- `source_type IN ('email-spf', 'email-dkim', 'email-dmarc')`
unfoldable pub is_email_text : Bytes → Bool
is_email_text t = is_text "email-spf" t || (is_text "email-dkim" t || is_text "email-dmarc" t)

unfoldable pub known_key : RecordKey → List RecordKey → Bool
known_key k ks = any (λ j. bytes_eq j.name k.name && bytes_eq j.kind k.kind) ks

-- `SELECT DISTINCT name, type FROM zone_records WHERE ...`
unfoldable pub email_keys : Option Bytes → List ZoneRecord → List RecordKey
unfolding same_id is_email_text known_key
email_keys source [] = []
email_keys source (r ∷ rs) =
    let rest = email_keys source rs in
    let key : RecordKey = record { name = r.name; kind = r.kind } in
    if same_id r.source_fqdn_id source
      && (is_text "auto" r.managed_by && (is_email_text r.source_type && not (known_key key rest)))
    then key ∷ rest
    else rest

abbrev pub keys_or_none : Result (List RecordKey) → List RecordKey
keys_or_none (ok ks) = ks
keys_or_none (err text) = []

unfoldable pub email_row : Server → Bytes → ZoneRecord → Bool
unfolding is_email_text
email_row srv fqdn r =
    is_text "auto" r.managed_by
    && ((is_text "email-mx" r.source_type || is_email_text r.source_type)
        && (bytes_eq r.name fqdn
            || (srv.like r.name (codes "%._domainkey." ++ fqdn)
                || bytes_eq r.name (codes "_dmarc." ++ fqdn))))

-- The email records leave PowerDNS; errors there are dropped.
unfoldable pub withdraw_email : Server → Bytes → ℕ → M (Unit {0})
withdraw_email srv fqdn domain = do
  ignore (delete_dns_record srv domain fqdn (codes "MX"))
  keys ← attempt (query srv (λ s. email_keys (fqdn_id fqdn s.fqdns) s.zone_records))
  for_each (keys_or_none keys) (λ k. ignore (delete_dns_record srv domain k.name k.kind))

unfoldable pub auto_delete_email_dns_records : Server → Bytes → M (Unit {0})
auto_delete_email_dns_records srv fqdn = do
  zone ← wrap (codes "find zone for fqdn: ") (find_zone_for_fqdn srv fqdn)
  when (not (is_empty zone)) (do
    domain ← wrap (codes "get dns zone id: ") (get_dns_zone_id_by_name srv zone)
    when (ltb 0 domain) (withdraw_email srv fqdn domain))
  wrap (codes "delete auto email records from core db: ") (delete_rows srv (email_row srv fqdn))

-- `ServiceHostnameEntry`
pub record ServiceEntry : Type 0 where
  pub service : Bytes
  pub ip : Bytes
  pub ip6 : Bytes

unfoldable pub create_service_record : Server → Bytes → ℕ → Bytes → Bytes → Bytes → M (Unit {0})
create_service_record srv zone domain hostname kind content = when (not (is_empty content)) (
    wrap (codes "create service " ++ (kind ++ (codes " record for " ++ (hostname ++ codes ": ")))) (
      create_auto_record srv
        (auto_def zone domain hostname kind content none (codes "service-hostname") [])))

-- `CreateServiceHostnameRecords`, by the base host name, the tenant's name and the services.
unfoldable pub create_service_hostname_records :
    Server → Bytes → Bytes → List ServiceEntry → M (Unit {0})
create_service_hostname_records srv base tenant services = do
  zone ← wrap (codes "find zone for base hostname: ") (find_zone_for_fqdn srv base)
  if is_empty zone then pure tt else do
    domain ← wrap (codes "get dns zone id: ") (get_dns_zone_id_by_name srv zone)
    for_each services (λ v.
        let hostname = v.service ++ (codes "." ++ (tenant ++ (codes "." ++ base))) in
        create_service_record srv zone domain hostname (codes "A") v.ip
        >> create_service_record srv zone domain hostname (codes "AAAA") v.ip6)
