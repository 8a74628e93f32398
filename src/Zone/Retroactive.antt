-- ===== src/Zone/Retroactive.antt =====
-- `RetroactiveAutoRecords` and `getLBAddressesForBrand` (internal/activity/dns.go): the records of
-- host names that were there before their zone.
use hosting.Common.{
  ℕ, Bool, false, not, ◌&&◌, ◌||◌, Bytes, codes, bytes_eq, is_text, Option, none, some, List, [],
  ◌∷◌, ◌++◌, take, any, is_empty, if◌then◌else◌, ◌==◌,
}
use hosting.Common.Result.{Result, ok, err}
use hosting.Zone.Stores.{
  Zone, Fqdn, Stores, Server, M, pure, fail, ◌>>=◌, ◌>>◌, attempt, ignore, wrap, query, exec,
  for_each, references_fqdn,
}
use hosting.Zone.PowerDns.{remove, write_dns_record, get_dns_zone_id_by_name, no_rows}
use hosting.Zone.Auto.{
  AutoRecordDef, LbAddress, address_type, fqdn_def, dns_record_of, auto_row, same_content,
  has_custom_record,
}
use hosting.Zone.Email.{EmailParams, auto_create_email_dns_records}

-- The fields of `model.Brand` that are read.
pub record Brand : Type 0 where
  pub id : Bytes
  pub mail_hostname : Bytes
  pub spf_includes : Bytes
  pub dkim_selector : Bytes
  pub dkim_public_key : Bytes
  pub dmarc_policy : Bytes

pub record ClusterAddress : Type 0 where
  pub cluster_id : Bytes
  pub addr : LbAddress

pub record BrandCluster : Type 0 where
  pub brand_id : Bytes
  pub cluster_id : Bytes

-- Tables that are only read: `email_fqdns` has the host name's id of each e-mail account. `order` is
-- PostgreSQL's order by family and address.
pub record Catalog : Type 0 where
  pub brands : List Brand
  pub addresses : List ClusterAddress
  pub brand_clusters : List BrandCluster
  pub email_fqdns : List Bytes
  pub order : List LbAddress → List LbAddress

-- `RetroactiveAutoRecordsParams`
pub record RetroactiveParams : Type 0 where
  pub zone_name : Bytes
  pub zone_id : Bytes
  pub brand_id : Bytes

unfoldable pub find_brand : Bytes → List Brand → Option Brand
find_brand id [] = none
find_brand id (b ∷ bs) = if bytes_eq b.id id then some b else find_brand id bs

abbrev pub or_missing : Option Brand → M Brand
or_missing (some b) = pure b
or_missing none = fail (codes no_rows)

-- `JOIN brand_clusters bc ON bc.cluster_id = la.cluster_id WHERE bc.brand_id = $1`: an address comes
-- once for each row that it meets.
unfoldable pub joined : Bytes → ClusterAddress → List BrandCluster → List LbAddress
joined brand la [] = []
joined brand la (bc ∷ bcs) =
    let rest = joined brand la bcs in
    if bytes_eq bc.cluster_id la.cluster_id && bytes_eq bc.brand_id brand
    then la.addr ∷ rest
    else rest

unfoldable pub brand_addresses : Bytes → List BrandCluster → List ClusterAddress → List LbAddress
brand_addresses brand bcs [] = []
brand_addresses brand bcs (la ∷ las) = joined brand la bcs ++ brand_addresses brand bcs las

unfoldable pub get_lb_addresses_for_brand : Server → Catalog → Bytes → M (List LbAddress)
get_lb_addresses_for_brand srv cat brand =
    query srv (λ s. take 10 (cat.order (brand_addresses brand cat.brand_clusters cat.addresses)))

-- `f.status = 'active' AND (f.fqdn = $1 OR f.fqdn LIKE '%.' || $1)`
unfoldable pub under_zone : Server → Bytes → Fqdn → Bool
under_zone srv zone f =
    is_text "active" f.status && (bytes_eq f.fqdn zone || srv.like f.fqdn (codes "%." ++ zone))

-- `INSERT INTO zone_records ... SELECT ... WHERE NOT EXISTS (...)`, with the zone's id given.
unfoldable pub insert_retroactive : Server → Zone → AutoRecordDef → ℕ → Stores → Option Stores
insert_retroactive srv z d n s =
    if any (same_content z d) s.zone_records
    then some s
    else if any (λ y. bytes_eq y.id z.id) s.zones && references_fqdn (some d.source_fqdn_id) s.fqdns
    then some (record s { zone_records = s.zone_records ++ (auto_row (srv.uuid n) z d ∷ []) })
    else none

-- `hasCustom, _ := ...`
abbrev pub true_only : Result Bool → Bool
true_only (ok b) = b
true_only (err text) = false

-- Errors are dropped.
unfoldable pub create_retroactive : Server → Zone → AutoRecordDef → M (Unit {0})
create_retroactive srv z d = do
  custom ← attempt (has_custom_record srv d.fqdn (d.record_type ∷ []))
  if true_only custom then pure tt else ignore (write_dns_record srv (dns_record_of d))
  ignore (exec srv (insert_retroactive srv z d))

unfoldable pub email_params : Brand → Fqdn → EmailParams
email_params b f = record {
  fqdn = f.fqdn;
  mail_hostname = if is_empty b.mail_hostname then codes "mail." ++ f.fqdn else b.mail_hostname;
  spf_includes = b.spf_includes;
  dkim_selector = b.dkim_selector;
  dkim_public_key = b.dkim_public_key;
  dmarc_policy = b.dmarc_policy;
  source_fqdn_id = f.id;
}

abbrev pub has_email : Catalog → Fqdn → Bool
has_email cat f = any (bytes_eq f.id) cat.email_fqdns

unfoldable pub retroactive_auto_records : Server → Catalog → RetroactiveParams → M (Unit {0})
retroactive_auto_records srv cat p = do
  brand ←
      wrap (codes "get brand: ") (query srv (λ s. find_brand p.brand_id cat.brands) >>= or_missing)
  domain ← wrap (codes "get dns zone id: ") (get_dns_zone_id_by_name srv p.zone_name)
  if domain == 0 then pure tt else do
    addresses ← wrap (codes "get LB addresses: ") (get_lb_addresses_for_brand srv cat p.brand_id)
    fqdns ←
        wrap (codes "find FQDNs for zone: ")
          (query srv (λ s. remove (λ f. not (under_zone srv p.zone_name f)) s.fqdns))
    let zone : Zone = record { id = p.zone_id; name = p.zone_name; status = codes "active" }
    for_each fqdns (λ f. for_each addresses (λ a. elim (address_type a.family) [
      | none ↦ pure tt
      | some kind ↦ create_retroactive srv zone (fqdn_def p.zone_name domain f.fqdn f.id a kind)
    ]))
    mailed ← wrap (codes "find email FQDNs for zone: ") (
        query srv
          (λ s. remove (λ f. not (under_zone srv p.zone_name f && has_email cat f)) s.fqdns))
    for_each mailed (λ f.
        wrap (codes "create email DNS for " ++ (f.fqdn ++ codes ": "))
          (auto_create_email_dns_records srv (email_params brand f)))
