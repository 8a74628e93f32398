-- ===== src/Zone/Deleting.antt =====
-- `DeleteZoneRecordWorkflow` for a custom record, run to its end on both databases
-- (internal/workflow/zone_record.go, internal/activity/dns.go).
use mathlib.Core.Path.{subst}
use hosting.Common.{
  ℕ, ◌≡◌, ◌≢◌, refl, inl, inr, true, false, Bytes, codes, is_text, Option, none, some, List, [],
  ◌∷◌, ◌==◌, ==_iff, Bool-cases, arith, any, ltb, if◌then◌else◌,
}
use hosting.Zone.Stores.{Domain, Stores, Server, for_each, references_domain, query}
use hosting.Zone.PowerDns.{find_domain, remove, in_set, or_zero}
use hosting.Zone.Auto.{overrides, has_custom_record}
use hosting.Zone.Override.{AutoRec, auto_recs, restore, reactivate_auto_records, dns_record_of_row}
use hosting.Zone.Records.{ZoneRecordParams, new_rows, zone_of_record, delete_zone_record}
use hosting.Zone.Runs.{
  Faultless, Runs, Runs-bind, Runs-then, Runs-wrap, Runs-attempt, Runs-ignore, Runs-activity,
  Runs-or_fail, Runs-pure, Runs-query,
}
use hosting.Zone.Served.{domain_of, put, restored, find_domain-references}
use hosting.Zone.Custom.{
  write_dns_record-Runs, delete_dns_record-Runs, get_dns_zone_id-Runs, mark-Runs,
  zone_of_record-Runs,
}

pub known :
    (name : Bytes) (ds : List Domain)
    → or_zero (find_domain name ds) ≢ 0
    → references_domain (or_zero (find_domain name ds)) ds ≡ true
known name ds nz = from (find_domain name ds) refl nz
  where
    from :
        (o : Option ℕ)
        → find_domain name ds ≡ o
        → or_zero o ≢ 0
        → references_domain (or_zero o) ds ≡ true
    from none e nz = absurd (nz refl)
    from (some i) e nz = find_domain-references name ds i e

-- The tables after the deletion of a custom record whose zone has the domain d.
abbrev pub deleted : ZoneRecordParams → ℕ → Stores → Stores
deleted p d s =
    let rows =
      new_rows p.record_id (codes "deleted") none
        (new_rows p.record_id (codes "deleting") none s.zone_records) in
    record s {
      zone_records = rows;
      records =
          restored s.domains (auto_recs p.name p.kind s.zones rows)
            (remove (in_set d p.name p.kind) s.records);
    }

module _ (srv : Server) (quiet : Faultless srv) where
  restore-Runs :
      (x : AutoRec) (s : Stores)
      → Runs (restore srv x) s tt (record s {
        records =
            if domain_of s.domains x == 0
            then s.records
            else put (dns_record_of_row (domain_of s.domains x) x.row) s.records;
      })
  unfolding restore
  restore-Runs x s =
      Runs-bind _ (Runs-attempt (get_dns_zone_id-Runs srv quiet x.zone_name s))
        (elim (Bool-cases (domain_of s.domains x == 0)) [
          | inl y ↦ rw y (Runs-pure tt s)
          | inr n ↦
              let ref =
                known x.zone_name s.domains
                  (λ e. ground (arith, ==_iff (domain_of s.domains x) 0)) in
              rw n (Runs-ignore (write_dns_record-Runs srv quiet _ s ref))
        ])

  restore_all-Runs :
      (xs : List AutoRec) (s : Stores)
      → Runs
          (for_each xs (restore srv))
          s
          tt
          (record s { records = restored s.domains xs s.records })
  unfolding for_each restored
  restore_all-Runs [] s = Runs-pure tt s
  restore_all-Runs (x ∷ xs) s = Runs-then (restore-Runs x s) (restore_all-Runs xs _)

  pub reactivate-Runs :
      (name kind : Bytes) (s : Stores)
      → any (overrides name (kind ∷ [])) s.zone_records ≡ false
      → Runs (reactivate_auto_records srv name kind) s tt (record s {
        records = restored s.domains (auto_recs name kind s.zones s.zone_records) s.records;
      })
  unfolding reactivate_auto_records has_custom_record
  reactivate-Runs name kind s free =
      let custom : Runs (query srv (λ s. any (overrides name (kind ∷ [])) s.zone_records)) s false
          s =
        subst (λ b. Runs (query srv (λ s. any (overrides name (kind ∷ [])) s.zone_records)) s b s)
          free (Runs-query srv quiet _ s) in
      Runs-bind _ (Runs-wrap custom _)
        (Runs-bind _ (Runs-wrap (Runs-query srv quiet _ s) _) (restore_all-Runs _ s))

  pub delete_zone_record-Runs :
      (p : ZoneRecordParams) (s : Stores) (d : ℕ)
      → is_text "custom" p.managed_by ≡ true
      → find_domain p.zone_name s.domains ≡ some d
      → d ≢ 0
      → any (overrides p.name (p.kind ∷ [])) (
          new_rows p.record_id
            (codes "deleted")
            none
            (new_rows p.record_id (codes "deleting") none s.zone_records))
        ≡ false
      → Runs (delete_zone_record srv p) s tt (deleted p d s)
  unfolding delete_zone_record
  delete_zone_record-Runs p s d custom found nz free =
      let begun = record s {
        zone_records = new_rows p.record_id (codes "deleting") none s.zone_records;
      } in
      let zone : Runs (zone_of_record srv p) begun d begun =
        subst (λ i. Runs (zone_of_record srv p) begun (or_zero i) begun) found
          (zone_of_record-Runs srv quiet p begun) in
      let positive : ltb 0 d ≡ true = ground arith in
      rw custom (
        Runs-then (mark-Runs srv quiet p _ s) (
          Runs-bind _ zone (
            Runs-then
              (rw positive (
                Runs-or_fail
                  (Runs-activity (delete_dns_record-Runs srv quiet d p.name p.kind begun)) srv
                  p.record_id))
              (Runs-then (mark-Runs srv quiet p _ _)
                (Runs-ignore (Runs-activity (reactivate-Runs p.name p.kind _ free)))))))
