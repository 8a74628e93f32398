-- ===== src/Zone/Override.antt =====
-- Auto records step aside for custom ones: `DeactivateAutoRecords` and `ReactivateAutoRecords`
-- (internal/activity/dns.go).
use hosting.Common.{
  ℕ, Bool, ◌&&◌, Bytes, codes, bytes_eq, is_text, Option, none, some, List, [], ◌∷◌, if◌then◌else◌,
  ◌==◌,
}
use hosting.Common.Result.{Result, ok, err}
use hosting.Zone.Stores.{
  Zone, ZoneRecord, DnsRecord, Server, M, pure, ◌>>=◌, attempt, ignore, wrap, query, for_each,
  zone_by_id,
}
use hosting.Zone.PowerDns.{write_dns_record, delete_dns_record, get_dns_zone_id_by_name}
use hosting.Zone.Auto.{has_custom_record}

-- A row of the join with the zones.
pub record AutoRec : Type 0 where
  pub row : ZoneRecord
  pub zone_name : Bytes

-- `zr.name = $1 AND zr.type = $2 AND zr.managed_by = 'auto' AND zr.status = 'active'`
unfoldable pub is_auto : Bytes → Bytes → ZoneRecord → Bool
is_auto name kind r =
    bytes_eq r.name name
    && (bytes_eq r.kind kind && (is_text "auto" r.managed_by && is_text "active" r.status))

abbrev pub join_zone : Option Zone → ZoneRecord → List AutoRec → List AutoRec
join_zone none r rest = rest
join_zone (some z) r rest = record { row = r; zone_name = z.name } ∷ rest

unfoldable pub auto_recs : Bytes → Bytes → List Zone → List ZoneRecord → List AutoRec
unfolding is_auto zone_by_id
auto_recs name kind zs [] = []
auto_recs name kind zs (r ∷ rs) =
    let rest = auto_recs name kind zs rs in
    if is_auto name kind r then join_zone (zone_by_id r.zone_id zs) r rest else rest

-- The id of the domain, 0 after an error: both make the loops go on with the next record.
abbrev pub known_domain : Result ℕ → ℕ
known_domain (ok i) = i
known_domain (err text) = 0

unfoldable pub withdraw : Server → AutoRec → M (Unit {0})
withdraw srv r = do
  domain ← attempt (get_dns_zone_id_by_name srv r.zone_name)
  if known_domain domain == 0
      then pure tt
      else ignore (delete_dns_record srv (known_domain domain) r.row.name r.row.kind)

unfoldable pub deactivate_auto_records : Server → Bytes → Bytes → M (Unit {0})
deactivate_auto_records srv name kind = do
  recs ←
      wrap (codes "find auto records to deactivate: ")
        (query srv (λ s. auto_recs name kind s.zones s.zone_records))
  for_each recs (withdraw srv)

-- The record that PowerDNS is to serve for a row.
abbrev pub dns_record_of_row : ℕ → ZoneRecord → DnsRecord
dns_record_of_row domain r = record {
  domain_id = domain;
  name = r.name;
  kind = r.kind;
  content = r.content;
  ttl = r.ttl;
  prio = r.priority;
}

unfoldable pub restore : Server → AutoRec → M (Unit {0})
restore srv r = do
  domain ← attempt (get_dns_zone_id_by_name srv r.zone_name)
  if known_domain domain == 0
      then pure tt
      else ignore (write_dns_record srv (dns_record_of_row (known_domain domain) r.row))

unfoldable pub reactivate_auto_records : Server → Bytes → Bytes → M (Unit {0})
reactivate_auto_records srv name kind = do
  custom ← wrap (codes "check remaining custom records: ") (has_custom_record srv name (kind ∷ []))
  if custom then pure tt else do
    recs ←
        wrap (codes "find auto records to reactivate: ")
          (query srv (λ s. auto_recs name kind s.zones s.zone_records))
    for_each recs (restore srv)
