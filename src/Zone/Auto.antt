-- ===== src/Zone/Auto.antt =====
-- Records that the platform manages itself (internal/activity/dns.go): the zone of a host name, the
-- override by custom records, and the A and AAAA records of a host name.
use hosting.Common.{
  ℕ, Bool, false, not, ◌&&◌, Bytes, codes, bytes_eq, is_text, join, Option, none, some, List, [],
  ◌∷◌, ◌++◌, any, is_empty, if◌then◌else◌, ltb, ◌==◌,
}
use hosting.Common.Ascii.{split}
use hosting.Common.Int.{ℤ, pos}
use hosting.Zone.Stores.{
  Zone, ZoneRecord, DnsRecord, Stores, Server, M, pure, ◌>>=◌, ◌>>◌, ignore, wrap, query, exec,
  for_each, references_fqdn, active_zone,
}
use hosting.Zone.PowerDns.{remove, write_dns_record, delete_dns_record, get_dns_zone_id_by_name}

-- `strings.Join(parts[i:], ".")` for each i in turn.
unfoldable pub candidates : List Bytes → List Bytes
candidates [] = []
candidates (p ∷ ps) = join (codes ".") (p ∷ ps) ∷ candidates ps

-- The first candidate that is an active zone, or "".
unfoldable pub first_zone : Server → List Bytes → M Bytes
first_zone srv [] = pure []
first_zone srv (c ∷ cs) = do
  row ← query srv (λ s. active_zone c s.zones)
  elim row [ none ↦ first_zone srv cs | some z ↦ pure z.name ]

unfoldable pub find_zone_for_fqdn : Server → Bytes → M Bytes
find_zone_for_fqdn srv fqdn = first_zone srv (candidates (split b'.' fqdn))

unfoldable pub type_in : Bytes → List Bytes → Bool
type_in t types = any (λ u. bytes_eq t u) types

-- `name = $1 AND managed_by = 'custom' AND status = 'active' AND type IN (...)`
unfoldable pub overrides : Bytes → List Bytes → ZoneRecord → Bool
unfolding type_in
overrides name types r =
    bytes_eq r.name name
    && (is_text "custom" r.managed_by && (is_text "active" r.status && type_in r.kind types))

-- Whether the count of such rows is not zero.
unfoldable pub has_custom_record : Server → Bytes → List Bytes → M Bool
has_custom_record srv name types =
    if is_empty types
    then pure false
    else query srv (λ s. any (overrides name types) s.zone_records)

-- `autoRecordDef`
pub record AutoRecordDef : Type 0 where
  pub zone_name : Bytes
  pub domain_id : ℕ
  pub fqdn : Bytes
  pub record_type : Bytes
  pub content : Bytes
  pub ttl : ℤ
  pub priority : Option ℤ
  pub source_type : Bytes
  pub source_fqdn_id : Bytes

abbrev pub dns_record_of : AutoRecordDef → DnsRecord
dns_record_of d = record {
  domain_id = d.domain_id;
  name = d.fqdn;
  kind = d.record_type;
  content = d.content;
  ttl = d.ttl;
  prio = d.priority;
}

-- The row of the definition in zone z. The source's id is never NULL here.
abbrev pub auto_row : Bytes → Zone → AutoRecordDef → ZoneRecord
auto_row id z d = record {
  id = id;
  zone_id = z.id;
  kind = d.record_type;
  name = d.fqdn;
  content = d.content;
  ttl = d.ttl;
  priority = d.priority;
  managed_by = codes "auto";
  source_type = d.source_type;
  source_fqdn_id = some d.source_fqdn_id;
  status = codes "active";
  status_message = none;
}

-- The rows that make the insertion of a definition unnecessary.
unfoldable pub same_source : Zone → AutoRecordDef → ZoneRecord → Bool
same_source z d r =
    bytes_eq r.zone_id z.id
    && (bytes_eq r.kind d.record_type
        && (bytes_eq r.name d.fqdn
            && (is_text "auto" r.managed_by && bytes_eq r.source_type d.source_type)))

-- `INSERT INTO zone_records ... SELECT ... FROM zones z WHERE ... AND NOT EXISTS (known rows)`
unfoldable pub insert_auto :
    Server → (Zone → AutoRecordDef → ZoneRecord → Bool) → AutoRecordDef → ℕ → Stores → Option Stores
insert_auto srv known d n s = elim (active_zone d.zone_name s.zones) [
  | none ↦ some s
  | some z ↦
      if any (known z d) s.zone_records
      then some s
      else if references_fqdn (some d.source_fqdn_id) s.fqdns
      then some (record s { zone_records = s.zone_records ++ (auto_row (srv.uuid n) z d ∷ []) })
      else none
]

unfoldable pub create_auto_record : Server → AutoRecordDef → M (Unit {0})
create_auto_record srv d = do
  custom ←
      wrap (codes "check custom override: ") (has_custom_record srv d.fqdn (d.record_type ∷ []))
  if not custom && ltb 0 d.domain_id
      then wrap (codes "write to PowerDNS: ") (write_dns_record srv (dns_record_of d))
      else pure tt
  wrap (codes "record in core db: ") (exec srv (insert_auto srv same_source d))

-- `ClusterLBAddress`
pub record LbAddress : Type 0 where
  pub address : Bytes
  pub family : ℕ

unfoldable pub address_type : ℕ → Option Bytes
address_type family =
    if family == 4 then some (codes "A") else if family == 6 then some (codes "AAAA") else none

-- A host name's record at one address of a load balancer.
abbrev pub fqdn_def : Bytes → ℕ → Bytes → Bytes → LbAddress → Bytes → AutoRecordDef
fqdn_def zone domain fqdn source a kind = record {
  zone_name = zone;
  domain_id = domain;
  fqdn = fqdn;
  record_type = kind;
  content = a.address;
  ttl = pos 300;
  priority = none;
  source_type = codes "fqdn";
  source_fqdn_id = source;
}

unfoldable pub same_content : Zone → AutoRecordDef → ZoneRecord → Bool
same_content z d r =
    bytes_eq r.zone_id z.id
    && (bytes_eq r.kind d.record_type
        && (bytes_eq r.name d.fqdn
            && (bytes_eq r.content d.content && is_text "auto" r.managed_by)))

unfoldable pub create_address_record : Server → Bool → AutoRecordDef → M (Unit {0})
create_address_record srv custom d = do
  if not custom
      then wrap
          (codes "create "
            ++ (d.record_type ++ (codes " record for " ++ (d.content ++ codes ": "))))
          (write_dns_record srv (dns_record_of d))
      else pure tt
  wrap (codes "record auto " ++ (d.record_type ++ codes " in core db: "))
      (exec srv (insert_auto srv same_content d))

unfoldable pub auto_create_dns_records : Server → Bytes → List LbAddress → Bytes → M (Unit {0})
auto_create_dns_records srv fqdn addresses source = do
  zone ← wrap (codes "find zone for fqdn: ") (find_zone_for_fqdn srv fqdn)
  if is_empty zone then pure tt else do
    domain ← wrap (codes "get dns zone id: ") (get_dns_zone_id_by_name srv zone)
    custom ←
        wrap (codes "check custom managed record: ")
          (has_custom_record srv fqdn (codes "A" ∷ codes "AAAA" ∷ []))
    for_each addresses (λ a. elim (address_type a.family) [
      | none ↦ pure tt
      | some kind ↦ create_address_record srv custom (fqdn_def zone domain fqdn source a kind)
    ])

-- `name = $1 AND managed_by = 'auto' AND source_type = 'fqdn'`
unfoldable pub fqdn_row : Bytes → ZoneRecord → Bool
fqdn_row fqdn r =
    bytes_eq r.name fqdn && (is_text "auto" r.managed_by && is_text "fqdn" r.source_type)

unfoldable pub delete_rows : Server → (ZoneRecord → Bool) → M (Unit {0})
delete_rows srv p = exec srv (λ _ s. some (record s { zone_records = remove p s.zone_records }))

unfoldable pub auto_delete_dns_records : Server → Bytes → M (Unit {0})
auto_delete_dns_records srv fqdn = do
  zone ← wrap (codes "find zone for fqdn: ") (find_zone_for_fqdn srv fqdn)
  if is_empty zone then ignore (delete_rows srv (fqdn_row fqdn)) else do
    domain ← wrap (codes "get dns zone id: ") (get_dns_zone_id_by_name srv zone)
    if ltb 0 domain
        then (do
          ignore (delete_dns_record srv domain fqdn (codes "A"))
          ignore (delete_dns_record srv domain fqdn (codes "AAAA")))
        else pure tt
    wrap (codes "delete auto FQDN records from core db: ") (delete_rows srv (fqdn_row fqdn))
