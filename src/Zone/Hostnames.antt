-- ===== src/Zone/Hostnames.antt =====
-- The records of service host names name no host name as their source, and the table asks for one
-- (internal/activity/dns.go, migrations/core/00011_zone_records.sql).
use hosting.Common.{
  ℕ, ◌+◌, ◌≤◌, ◌≡◌, refl, inl, inr, Bool, true, false, not, ◌&&◌, ◌||◌, Bytes, codes, is_text,
  is_empty, length, Option, none, some, List, [], ◌∷◌, ◌++◌, any, ltb, Bool-cases, arith,
}
use hosting.Zone.Stores.{
  Zone, ZoneRecord, DnsRecord, Stores, Server, M, failed, ◌>>=◌, ◌>>◌, wrap, exec, for_each,
  active_zone, references_fqdn,
}
use hosting.Zone.PowerDns.{find_domain, or_zero}
use hosting.Zone.Auto.{
  AutoRecordDef, create_auto_record, insert_auto, same_source, has_custom_record, dns_record_of,
  overrides,
}
use hosting.Zone.Email.{ServiceEntry, create_service_record, create_service_hostname_records}
use hosting.Zone.Find.{IsActive, LiesIn, find_zone-IsLongest}
use hosting.Zone.Runs.{Faultless, Runs, Runs-then, Runs-wrap, Runs-pure, Runs-query}
use hosting.Zone.Served.{put}
use hosting.Zone.Custom.{write_dns_record-Runs, get_dns_zone_id-Runs}
use hosting.Zone.Deleting.{known}

-- From the tables s, m ends with an error, and then the table of zone records is that given.
pub record Fails {A : Type 0} (m : M A) (s : Stores) (rows : List ZoneRecord) : Type 0 where
  pub ends :
      (n : ℕ)
      → (text : Bytes) × (s' : Stores) × (k : ℕ) × (m s n ≡ failed text s' k)
        × (s'.zone_records ≡ rows)

Fails-bind :
    {A B : Type 0} {m : M A} (f : A → M B) {a : A} {s s' : Stores} {rows : List ZoneRecord}
    → Runs m s a s'
    → Fails (f a) s' rows
    → Fails (m >>= f) s rows
unfolding ◌>>=◌
Fails-bind f h h' = record {
  ends = λ n.
      let (k, e) = h.ends n in
      let (text, t, k', e', r) = h'.ends k in (text, t, k', rw (e, ◌>>=◌) e', r);
}

module _ {A : Type 0} {m : M A} {s : Stores} {rows : List ZoneRecord} (h : Fails m s rows) where
  Fails-first : {B : Type 0} (f : A → M B) → Fails (m >>= f) s rows
  unfolding ◌>>=◌
  Fails-first f = record {
    ends = λ n. let (text, t, k, e, r) = h.ends n in (text, t, k, rw (e, ◌>>=◌) refl, r);
  }

  Fails-wrap : (before : Bytes) → Fails (wrap before m) s rows
  unfolding wrap
  Fails-wrap before = record {
    ends = λ n. let (text, t, k, e, r) = h.ends n in (before ++ text, t, k, rw (e, wrap) refl, r);
  }

Fails-exec :
    (srv : Server)
    → Faultless srv
    → (change : ℕ → Stores → Option Stores) (s : Stores) → ((n : ℕ) → change n s ≡ none)
    → Fails (exec srv change) s s.zone_records
unfolding exec
Fails-exec srv quiet change s e = record {
  ends = λ n. (srv.violation, s, n + 1, rw (quiet n, exec, e n) refl, refl);
}

-- No row of a host name has the empty id.
abbrev pub NoEmptyId : Stores → Type 0
NoEmptyId s = references_fqdn (some []) s.fqdns ≡ false

-- No zone record is one of a service host name.
abbrev pub NoServiceRecord : Stores → Type 0
NoServiceRecord s = any (λ r. is_text "service-hostname" r.source_type) s.zone_records ≡ false

not_known :
    (z : Zone) (d : AutoRecordDef) (rs : List ZoneRecord)
    → d.source_type ≡ codes "service-hostname"
    → any (λ r. is_text "service-hostname" r.source_type) rs ≡ false
    → any (same_source z d) rs ≡ false
unfolding same_source
not_known z d [] e h = refl
not_known z d (r ∷ rs) e h = let ih = not_known z d rs e in rw e (ground arith)

-- The service has an address.
abbrev pub has_address : ServiceEntry → Bool
has_address v = not (is_empty v.ip) || not (is_empty v.ip6)

pub not_empty : (t : Bytes) → 1 ≤ length t → is_empty t ≡ false
not_empty [] h = absurd (omega arith)
not_empty (c ∷ t) h = refl

module _ (srv : Server) (quiet : Faultless srv) (s : Stores) (orphan : NoEmptyId s)
    (new : NoServiceRecord s) where
  insert-refused :
      (d : AutoRecordDef) (z : Zone) (rs : List DnsRecord) (n : ℕ)
      → d.source_type ≡ codes "service-hostname"
      → d.source_fqdn_id ≡ []
      → active_zone d.zone_name s.zones ≡ some z
      → insert_auto srv same_source d n (record s { records = rs }) ≡ none
  unfolding insert_auto
  insert-refused d z rs n source id found =
      rw (found, insert_auto, not_known z d s.zone_records source new, id, orphan) refl

  -- The name under which a record of a service host name is created, whatever else it holds.
  abbrev IsService : AutoRecordDef → Type 0
  IsService d = (d.source_type ≡ codes "service-hostname") × (d.source_fqdn_id ≡ [])

  record-Fails :
      (d : AutoRecordDef) (z : Zone)
      → IsService d
      → active_zone d.zone_name s.zones ≡ some z
      → d.domain_id ≡ or_zero (find_domain d.zone_name s.domains)
      → Fails (create_auto_record srv d) s s.zone_records
  unfolding create_auto_record has_custom_record
  record-Fails d z (source, id) found domain =
      Fails-bind _ (Runs-wrap (Runs-query srv quiet _ s) _)
        (elim (Bool-cases
          (not (any (overrides d.fqdn (d.record_type ∷ [])) s.zone_records) && ltb 0 d.domain_id)) [
            | inr n ↦ rw n (
                Fails-bind _ (Runs-pure tt s) (
                  Fails-wrap
                    (Fails-exec srv quiet _ s (λ n. insert-refused d z s.records n source id found))
                    _))
            | inl y ↦
                let ref = known d.zone_name s.domains (λ e. ground (arith, domain)) in
                let written = record s { records = put (dns_record_of d) s.records } in
                rw y (
                  Fails-bind _
                    (Runs-wrap (write_dns_record-Runs srv quiet (dns_record_of d) s (rw domain ref))
                      _)
                    (Fails-wrap
                      (Fails-exec srv quiet _ written
                        (λ n. insert-refused d z written.records n source id found))
                      _))
          ])

  abbrev zone_domain : Bytes → ℕ
  zone_domain zone = or_zero (find_domain zone s.domains)

  service-Fails :
      (zone hostname kind content : Bytes) (z : Zone)
      → active_zone zone s.zones ≡ some z
      → is_empty content ≡ false
      → Fails
          (create_service_record srv zone (zone_domain zone) hostname kind content)
          s
          s.zone_records
  unfolding create_service_record
  service-Fails zone hostname kind content z found given =
      rw given (Fails-wrap (record-Fails _ z (refl, refl) found refl) _)

  service-skips :
      (zone hostname kind content : Bytes)
      → is_empty content ≡ true
      → Runs (create_service_record srv zone (zone_domain zone) hostname kind content) s tt s
  unfolding create_service_record
  service-skips zone hostname kind content empty = rw empty (Runs-pure tt s)

  pair-Fails :
      (zone hostname : Bytes) (v : ServiceEntry) (z : Zone)
      → active_zone zone s.zones ≡ some z
      → has_address v ≡ true
      → Fails
          (create_service_record srv zone (zone_domain zone) hostname (codes "A") v.ip
            >> create_service_record srv zone (zone_domain zone) hostname (codes "AAAA") v.ip6)
          s
          s.zone_records
  pair-Fails zone hostname v z found given = elim (Bool-cases (is_empty v.ip)) [
    | inr n ↦ Fails-first (service-Fails zone hostname _ v.ip z found n) _
    | inl y ↦
        Fails-bind _ (service-skips zone hostname _ v.ip y)
          (service-Fails zone hostname _ v.ip6 z found (ground arith))
  ]

  services-Fails :
      (zone : Bytes) (name : ServiceEntry → Bytes) (z : Zone) (vs : List ServiceEntry)
      → active_zone zone s.zones ≡ some z
      → any has_address vs ≡ true
      → Fails
          (for_each vs (λ v.
            create_service_record srv zone (zone_domain zone) (name v) (codes "A") v.ip
            >> create_service_record srv zone (zone_domain zone) (name v) (codes "AAAA") v.ip6))
          s
          s.zone_records
  unfolding for_each
  services-Fails zone name z [] found given = cc
  services-Fails zone name z (v ∷ vs) found given = elim (Bool-cases (has_address v)) [
    | inl y ↦ Fails-first (pair-Fails zone (name v) v z found y) _
    | inr n ↦
        Fails-bind _
          (Runs-then (service-skips zone (name v) _ v.ip (ground arith))
            (service-skips zone (name v) _ v.ip6 (ground arith)))
          (services-Fails zone name z vs found (rw n at given))
  ]

  -- Where no statement fails, no host name has the empty id and no record of a service host name is
  -- there yet, `CreateServiceHostnameRecords` fails and adds no zone record, if the base host name
  -- lies in an active zone with a name and some service has an address.
  pub services-refused :
      (base tenant name : Bytes) (vs : List ServiceEntry)
      → IsActive s.zones name
      → LiesIn base name
      → 1 ≤ length name
      → any has_address vs ≡ true
      → Fails (create_service_hostname_records srv base tenant vs) s s.zone_records
  unfolding create_service_hostname_records
  services-refused base tenant name vs (w, active) lies named given =
      let (zone, runs, longest) = find_zone-IsLongest srv quiet base s in
      elim longest [
        | inr (nil, none_active) ↦ absurd (ground (arith, none_active name lies))
        | inl ((z, found), at_zone, max) ↦
            let long : 1 ≤ length zone = omega (arith, max name lies (w, active)) in
            let full : is_empty zone ≡ false = not_empty zone long in
            Fails-bind _ (Runs-wrap runs _) (
              rw full (
                Fails-bind _ (Runs-wrap (get_dns_zone_id-Runs srv quiet zone s) _)
                  (services-Fails zone _ z vs found given)))
      ]
