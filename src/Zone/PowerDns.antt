-- ===== src/Zone/PowerDns.antt =====
-- The activities on PowerDNS's database (internal/activity/powerdns_db.go).
use hosting.Common.{
  ℕ, ◌+◌, Bool, ◌&&◌, String, Bytes, codes, bytes_eq, Option, none, some, List, [], ◌∷◌, ◌++◌, any,
  if◌then◌else◌, ◌==◌,
}
use hosting.Zone.Stores.{
  Domain, DnsRecord, Stores, Server, M, pure, fail, ◌>>=◌, ◌>>◌, wrap, query, exec, exec_returning,
  references_domain,
}

-- The id of the domain of that name.
unfoldable pub find_domain : Bytes → List Domain → Option ℕ
find_domain name [] = none
find_domain name (d ∷ ds) = if bytes_eq d.name name then some d.id else find_domain name ds

unfoldable pub remove : {A : Type 0} → (A → Bool) → List A → List A
remove p [] = []
remove p (x ∷ xs) = if p x then remove p xs else x ∷ remove p xs

-- `domain_id = $1 AND name = $2 AND type = $3`
unfoldable pub in_set : ℕ → Bytes → Bytes → DnsRecord → Bool
in_set domain name kind r = r.domain_id == domain && (bytes_eq r.name name && bytes_eq r.kind kind)

-- The same, with `AND content = $4`.
unfoldable pub same_record : DnsRecord → DnsRecord → Bool
unfolding in_set
same_record p r = in_set p.domain_id p.name p.kind r && bytes_eq r.content p.content

-- `INSERT INTO domains (name, type) ... ON CONFLICT (name) DO NOTHING RETURNING id`; the sequence
-- moves on either way.
unfoldable pub insert_domain : Bytes → Bytes → Stores → Option ℕ × Stores
unfolding find_domain
insert_domain name kind s = elim (find_domain name s.domains) [
  | some i ↦ (none, record s { next_domain = s.next_domain + 1 })
  | none ↦
      let d : Domain = record { id = s.next_domain; name = name; kind = kind } in
      (
        some s.next_domain,
        record s { domains = s.domains ++ (d ∷ []); next_domain = s.next_domain + 1 },
      )
]

-- The text of `pgx.ErrNoRows`.
abbrev pub no_rows : String
no_rows = "no rows in result set"

abbrev or_no_rows : Option ℕ → M ℕ
or_no_rows (some i) = pure i
or_no_rows none = fail (codes no_rows)

unfoldable pub write_dns_zone : Server → Bytes → Bytes → M ℕ
write_dns_zone srv name kind = do
  inserted ← wrap (codes "write dns zone: ") (exec_returning srv (insert_domain name kind))
  elim inserted [
    | some i ↦ pure i
    | none ↦
        wrap (codes "write dns zone: lookup existing: ")
          (query srv (λ s. find_domain name s.domains) >>= or_no_rows)
  ]

-- `ON DELETE CASCADE` takes the records of the domains along.
unfoldable pub drop_domain : Bytes → Stores → Stores
unfolding remove
drop_domain name s =
    let gone = λ (d : Domain). bytes_eq d.name name in
    let orphan = λ (r : DnsRecord). any (λ d. gone d && d.id == r.domain_id) s.domains in
    record s { domains = remove gone s.domains; records = remove orphan s.records }

unfoldable pub delete_dns_zone : Server → Bytes → M (Unit {0})
delete_dns_zone srv name =
    wrap (codes "delete dns zone: ") (exec srv (λ _ s. some (drop_domain name s)))

unfoldable pub insert_record : DnsRecord → Stores → Option Stores
unfolding references_domain
insert_record r s =
    if references_domain r.domain_id s.domains
    then some (record s { records = s.records ++ (r ∷ []) })
    else none

unfoldable pub write_dns_record : Server → DnsRecord → M (Unit {0})
write_dns_record srv p = do
  wrap (codes "write dns record: delete existing: ")
      (exec srv (λ _ s. some (record s { records = remove (same_record p) s.records })))
  wrap (codes "write dns record: ") (exec srv (λ _. insert_record p))

-- `UPDATE records SET content = $1, ttl = $2, prio = $3 WHERE ...`
unfoldable pub set_content : DnsRecord → List DnsRecord → List DnsRecord
unfolding in_set
set_content p [] = []
set_content p (r ∷ rs) =
    (if in_set p.domain_id p.name p.kind r
      then record r { content = p.content; ttl = p.ttl; prio = p.prio }
      else r)
    ∷ set_content p rs

unfoldable pub update_dns_record : Server → DnsRecord → M (Unit {0})
update_dns_record srv p =
    wrap (codes "update dns record: ")
      (exec srv (λ _ s. some (record s { records = set_content p s.records })))

unfoldable pub delete_dns_record : Server → ℕ → Bytes → Bytes → M (Unit {0})
delete_dns_record srv domain name kind =
    wrap (codes "delete dns record: ")
      (exec srv (λ _ s. some (record s { records = remove (in_set domain name kind) s.records })))

unfoldable pub delete_dns_records_by_domain : Server → ℕ → M (Unit {0})
delete_dns_records_by_domain srv domain =
    wrap (codes "delete dns records by domain: ") (
      exec srv (λ _ s. some (record s { records = remove (λ r. r.domain_id == domain) s.records })))

abbrev pub or_zero : Option ℕ → ℕ
or_zero none = 0
or_zero (some i) = i

-- 0 where no domain has the name.
unfoldable pub get_dns_zone_id_by_name : Server → Bytes → M ℕ
get_dns_zone_id_by_name srv name =
    wrap (codes "get dns zone id by name: ") (query srv (λ s. or_zero (find_domain name s.domains)))
