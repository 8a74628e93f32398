-- ===== src/Zone/Custom.antt =====
-- `CreateZoneRecordWorkflow` for a custom record, run to its end on both databases
-- (internal/workflow/zone_record.go, internal/activity/dns.go).
use hosting.Common.{
  ℕ, ◌≡◌, ◌≢◌, refl, inl, inr, true, Bytes, codes, is_text, none, some, List, [], ◌∷◌, ◌==◌, ==_iff,
  Bool-cases, if◌then◌else◌,
}
use mathlib.Core.Path.{subst}
use hosting.Zone.Stores.{DnsRecord, Stores, Server, for_each, references_domain}
use hosting.Zone.PowerDns.{
  find_domain, remove, in_set, same_record, or_zero, insert_record, write_dns_record,
  delete_dns_record, get_dns_zone_id_by_name,
}
use hosting.Zone.Override.{AutoRec, auto_recs, withdraw, deactivate_auto_records}
use hosting.Zone.Records.{
  ZoneRecordParams, update_resource_status, new_rows, mark, zone_of_record, dns_record_of_params,
  create_zone_record, require_zone,
}
use hosting.Zone.Runs.{
  Faultless, Runs, Runs-bind, Runs-then, Runs-wrap, Runs-attempt, Runs-ignore, Runs-activity,
  Runs-or_fail, Runs-pure, Runs-query, Runs-exec,
}
use hosting.Zone.Served.{domain_of, put, withdrawn, find_domain-references}

-- The tables after the creation of a custom record whose zone has the domain d.
abbrev pub created : ZoneRecordParams → ℕ → Stores → Stores
created p d s =
    let begun = new_rows p.record_id (codes "provisioning") none s.zone_records in
    record s {
      zone_records = new_rows p.record_id (codes "active") none begun;
      records =
          withdrawn s.domains (auto_recs p.name p.kind s.zones begun)
            (put (dns_record_of_params d p) s.records);
    }

module _ (srv : Server) (quiet : Faultless srv) where
  pub write_dns_record-Runs :
      (p : DnsRecord) (s : Stores)
      → references_domain p.domain_id s.domains ≡ true
      → Runs (write_dns_record srv p) s tt (record s { records = put p s.records })
  unfolding write_dns_record insert_record
  write_dns_record-Runs p s ref =
      let cleared = record s { records = remove (same_record p) s.records } in
      Runs-then (Runs-wrap (Runs-exec srv quiet _ s cleared (λ n. refl)) _)
        (Runs-wrap (Runs-exec srv quiet _ cleared _ (λ n. rw ref refl)) _)

  pub delete_dns_record-Runs :
      (d : ℕ) (name kind : Bytes) (s : Stores)
      → Runs
          (delete_dns_record srv d name kind)
          s
          tt
          (record s { records = remove (in_set d name kind) s.records })
  unfolding delete_dns_record
  delete_dns_record-Runs d name kind s = Runs-wrap (Runs-exec srv quiet _ s _ (λ n. refl)) _

  pub get_dns_zone_id-Runs :
      (name : Bytes) (s : Stores)
      → Runs (get_dns_zone_id_by_name srv name) s (or_zero (find_domain name s.domains)) s
  unfolding get_dns_zone_id_by_name
  get_dns_zone_id-Runs name s = Runs-wrap (Runs-query srv quiet _ s) _

  withdraw-Runs :
      (x : AutoRec) (s : Stores)
      → Runs (withdraw srv x) s tt (record s {
        records =
            if domain_of s.domains x == 0
            then s.records
            else remove (in_set (domain_of s.domains x) x.row.name x.row.kind) s.records;
      })
  unfolding withdraw
  withdraw-Runs x s =
      Runs-bind _ (Runs-attempt (get_dns_zone_id-Runs x.zone_name s))
        (elim (Bool-cases (domain_of s.domains x == 0)) [
          | inl y ↦ rw y (Runs-pure tt s)
          | inr n ↦ rw n (Runs-ignore (delete_dns_record-Runs _ x.row.name x.row.kind s))
        ])

  withdraw_all-Runs :
      (xs : List AutoRec) (s : Stores)
      → Runs
          (for_each xs (withdraw srv))
          s
          tt
          (record s { records = withdrawn s.domains xs s.records })
  unfolding for_each withdrawn
  withdraw_all-Runs [] s = Runs-pure tt s
  withdraw_all-Runs (x ∷ xs) s = Runs-then (withdraw-Runs x s) (withdraw_all-Runs xs _)

  pub deactivate-Runs :
      (name kind : Bytes) (s : Stores)
      → Runs (deactivate_auto_records srv name kind) s tt (record s {
        records = withdrawn s.domains (auto_recs name kind s.zones s.zone_records) s.records;
      })
  unfolding deactivate_auto_records
  deactivate-Runs name kind s =
      Runs-bind _ (Runs-wrap (Runs-query srv quiet _ s) _) (withdraw_all-Runs _ s)

  pub mark-Runs :
      (p : ZoneRecordParams) (status : Bytes) (s : Stores)
      → Runs
          (mark srv p status)
          s
          tt
          (record s { zone_records = new_rows p.record_id status none s.zone_records })
  unfolding mark update_resource_status
  mark-Runs p status s = Runs-activity (Runs-exec srv quiet _ s _ (λ n. refl))

  pub zone_of_record-Runs :
      (p : ZoneRecordParams) (s : Stores)
      → Runs (zone_of_record srv p) s (or_zero (find_domain p.zone_name s.domains)) s
  unfolding zone_of_record
  zone_of_record-Runs p s =
      Runs-or_fail (Runs-activity (get_dns_zone_id-Runs p.zone_name s)) srv p.record_id

  Runs-required :
      (p : ZoneRecordParams) (d : ℕ) (s : Stores) → d ≢ 0 → Runs (require_zone srv p d) s tt s
  unfolding require_zone
  Runs-required p d s nz = elim (Bool-cases (d == 0)) [
    | inl y ↦ absurd (nz ((==_iff d 0).0 y))
    | inr n ↦ rw n (Runs-pure tt s)
  ]

  pub create_zone_record-Runs :
      (p : ZoneRecordParams) (s : Stores) (d : ℕ)
      → is_text "custom" p.managed_by ≡ true
      → find_domain p.zone_name s.domains ≡ some d
      → d ≢ 0
      → Runs (create_zone_record srv p) s tt (created p d s)
  unfolding create_zone_record
  create_zone_record-Runs p s d custom found nz =
      let begun = record s {
        zone_records = new_rows p.record_id (codes "provisioning") none s.zone_records;
      } in
      let zone : Runs (zone_of_record srv p) begun d begun =
        subst (λ i. Runs (zone_of_record srv p) begun (or_zero i) begun) found
          (zone_of_record-Runs p begun) in
      let ref = find_domain-references p.zone_name s.domains d found in
      rw custom (
        Runs-then (mark-Runs p _ s) (
          Runs-bind _ zone (
            Runs-then (Runs-required p d begun nz) (
              Runs-then
                (Runs-or_fail (Runs-activity (write_dns_record-Runs _ begun ref)) srv p.record_id)
                (Runs-then (Runs-ignore (Runs-activity (deactivate-Runs p.name p.kind _)))
                  (mark-Runs p _ _))))))
