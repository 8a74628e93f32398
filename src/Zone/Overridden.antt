-- ===== src/Zone/Overridden.antt =====
-- What PowerDNS serves after the creation and after the deletion of a custom record under a name
-- that the platform has records for too (internal/workflow/zone_record.go,
-- internal/activity/dns.go).
use hosting.Common.{
  ℕ, ◌≡◌, ◌≢◌, ap, sym, ◌∙◌, true, false, codes, is_text, some, none, List, [], ◌∷◌, ◌==◌, any,
}
use hosting.Common.Text.{bytes_eq}
use hosting.Zone.Stores.{ZoneRecord, Stores, Server, ◌>>◌}
use hosting.Zone.PowerDns.{find_domain, remove, in_set}
use hosting.Zone.Auto.{overrides}
use hosting.Zone.Override.{AutoRec, auto_recs}
use hosting.Zone.Records.{
  ZoneRecordParams, new_rows, has_id, create_zone_record, delete_zone_record, dns_record_of_params,
}
use hosting.Zone.Runs.{Faultless, Runs, Runs-then}
use hosting.Zone.Served.{
  served, domain_of, put, prescribed, auto_recs-OfSet, withdrawn-clears, withdrawn-other,
  keep-remove_self,
}
use hosting.Zone.Prescribed.{prescribed_by, prescribed-auto_recs}
use hosting.Zone.Restored.{served-put, restored-prescribed}
use hosting.Zone.Rows.{NotAuto, NotAuto-update, auto_recs-update, auto_recs-remove, remove-update}
use hosting.Zone.Custom.{created, create_zone_record-Runs}
use hosting.Zone.Deleting.{deleted, delete_zone_record-Runs}
use hosting.Common.{==_iff, arith}
use hosting.Common.TextLaws.{bytes_eq_iff}

-- The auto records under the record's name and type.
abbrev pub rivals : ZoneRecordParams → Stores → List AutoRec
rivals p s = auto_recs p.name p.kind s.zones s.zone_records

-- A custom record with a row of its own, in a zone whose domain in PowerDNS is d.
pub record IsCustom (p : ZoneRecordParams) (d : ℕ) (s : Stores) : Type 0 where
  pub custom : is_text "custom" p.managed_by ≡ true
  pub found : find_domain p.zone_name s.domains ≡ some d
  pub numbered : d ≢ 0
  pub own_row : NotAuto p.record_id s.zone_records

begun : ZoneRecordParams → Stores → List ZoneRecord
begun p s = new_rows p.record_id (codes "provisioning") none s.zone_records

begun-rivals :
    (p : ZoneRecordParams) (s : Stores)
    → NotAuto p.record_id s.zone_records
    → auto_recs p.name p.kind s.zones (begun p s) ≡ rivals p s
unfolding begun new_rows bytes_eq
begun-rivals p s h =
    auto_recs-update p.record_id (codes "provisioning") p.name p.kind s.zones s.zone_records h

begun-NotAuto :
    (p : ZoneRecordParams) (s : Stores)
    → NotAuto p.record_id s.zone_records
    → NotAuto p.record_id (begun p s)
unfolding begun new_rows bytes_eq
begun-NotAuto p s h = NotAuto-update p.record_id (codes "provisioning") s.zone_records h

-- The rows after the two steps of a deletion.
remaining :
    (p : ZoneRecordParams) (s : Stores)
    → new_rows p.record_id
        (codes "deleted")
        none
        (new_rows p.record_id (codes "deleting") none s.zone_records)
      ≡ remove (has_id p.record_id) s.zone_records
unfolding new_rows bytes_eq
remaining p s = remove-update p.record_id (codes "deleting") s.zone_records

module _ (srv : Server) (quiet : Faultless srv) (p : ZoneRecordParams) (d : ℕ) (s : Stores)
    (c : IsCustom p d s) where
  -- Where no statement fails, the creation of a custom record whose zone has a domain in PowerDNS and
  -- whose row is not the platform's succeeds, and if an active auto record of the zone has the same
  -- name and type, then PowerDNS serves nothing under them afterwards, not even the custom record.
  pub create-lost :
      any (λ x. domain_of s.domains x == d) (rivals p s) ≡ true
      → (s' : Stores) × Runs (create_zone_record srv p) s tt s'
        × (served d p.name p.kind s'.records ≡ [])
  unfolding begun
  create-lost rival = (
    created p d s,
    create_zone_record-Runs srv quiet p s d c.custom c.found c.numbered,
    rw (begun-rivals p s c.own_row) (
        withdrawn-clears d p.name p.kind s.domains (rivals p s) _ c.numbered
          (auto_recs-OfSet p.name p.kind s.zones s.zone_records) rival),
  )

  -- Where no statement fails and no active auto record of the zone has the name and type of a custom
  -- record, its zone has a domain in PowerDNS and its row is not the platform's, its creation
  -- succeeds, and PowerDNS serves the record, in place of one with the same
  -- content, beside those that it served under the name and type before.
  pub create-served :
      any (λ x. domain_of s.domains x == d) (rivals p s) ≡ false
      → (s' : Stores) × Runs (create_zone_record srv p) s tt s'
        × (served d p.name p.kind s'.records
            ≡ put (dns_record_of_params d p) (served d p.name p.kind s.records))
  unfolding begun in_set
  create-served free = (
    created p d s,
    create_zone_record-Runs srv quiet p s d c.custom c.found c.numbered,
    rw (begun-rivals p s c.own_row) (
        withdrawn-other d p.name p.kind s.domains (rivals p s) _
          (auto_recs-OfSet p.name p.kind s.zones s.zone_records) free
        ∙ served-put d p.name p.kind s.domains (dns_record_of_params d p) s.records
            (ground (arith, ==_iff d d, bytes_eq_iff p.name p.name, bytes_eq_iff p.kind p.kind))),
  )

  -- Where no statement fails and no other active custom record has the name and type of a custom
  -- record, its zone has a domain in PowerDNS and its row is not the platform's, its deletion succeeds,
  -- its row is gone, and PowerDNS serves under them exactly what the rows of the active auto records
  -- prescribe: for each, its name, type, content, time to live and priority.
  pub delete-restores :
      any (overrides p.name (p.kind ∷ [])) (remove (has_id p.record_id) s.zone_records) ≡ false
      → (s' : Stores) × Runs (delete_zone_record srv p) s tt s'
        × (s'.zone_records ≡ remove (has_id p.record_id) s.zone_records)
        × (served d p.name p.kind s'.records
            ≡ prescribed_by d p.name p.kind s.domains s.zones s.zone_records [])
  delete-restores alone =
      let rows = remaining p s in
      (
        deleted p d s,
        delete_zone_record-Runs srv quiet p s d c.custom c.found c.numbered (rw rows alone),
        rows,
        restored-prescribed d p.name p.kind s.domains _ _ c.numbered
              (auto_recs-OfSet p.name p.kind s.zones _)
            ∙ rw
                (
                  rows,
                  auto_recs-remove p.record_id p.name p.kind s.zones s.zone_records c.own_row,
                  keep-remove_self (in_set d p.name p.kind) s.records,
                )
                (prescribed-auto_recs d p.name p.kind s.domains s.zones s.zone_records []),
      )

created-IsCustom :
    (p : ZoneRecordParams) (d : ℕ) (s : Stores) → IsCustom p d s → IsCustom p d (created p d s)
unfolding new_rows bytes_eq begun
created-IsCustom p d s c = record {
  custom = c.custom;
  found = c.found;
  numbered = c.numbered;
  own_row = NotAuto-update p.record_id (codes "active") _ (begun-NotAuto p s c.own_row);
}

created-remaining :
    (p : ZoneRecordParams) (d : ℕ) (s : Stores)
    → remove (has_id p.record_id) (created p d s).zone_records
      ≡ remove (has_id p.record_id) s.zone_records
unfolding new_rows bytes_eq
created-remaining p d s =
    remove-update p.record_id (codes "active") _
    ∙ remove-update p.record_id (codes "provisioning") s.zone_records

created-rivals :
    (p : ZoneRecordParams) (d : ℕ) (s : Stores)
    → NotAuto p.record_id s.zone_records
    → rivals p (created p d s) ≡ rivals p s
unfolding new_rows bytes_eq begun
created-rivals p d s h =
    auto_recs-update p.record_id (codes "active") p.name p.kind s.zones _ (begun-NotAuto p s h)
    ∙ begun-rivals p s h

-- Where no statement fails, PowerDNS serves what the active auto records prescribe, and no other
-- active custom record has the name and type, a custom record whose zone has a domain there and
-- whose row is not the platform's, created and deleted again, leaves no row, and PowerDNS serves under the name and type what it served before.
pub create-delete :
    (srv : Server)
    → Faultless srv
    → (p : ZoneRecordParams) (d : ℕ) (s : Stores) → IsCustom p d s
    → any (overrides p.name (p.kind ∷ [])) (remove (has_id p.record_id) s.zone_records) ≡ false
    → served d p.name p.kind s.records ≡ prescribed d s.domains (rivals p s) []
    → (s' : Stores) × Runs (create_zone_record srv p >> delete_zone_record srv p) s tt s'
      × (s'.zone_records ≡ remove (has_id p.record_id) s.zone_records)
      × (served d p.name p.kind s'.records ≡ served d p.name p.kind s.records)
create-delete srv quiet p d s c alone in_sync =
    let between = created p d s in
    let rows = created-remaining p d s in
    let (s', runs, gone, serves) =
      delete-restores srv quiet p d between (created-IsCustom p d s c) (rw rows alone) in
    (
      s',
      Runs-then (create_zone_record-Runs srv quiet p s d c.custom c.found c.numbered) runs,
      gone ∙ rows,
      serves
          ∙ sym (
              prescribed-auto_recs d p.name p.kind between.domains between.zones
                between.zone_records [])
          ∙ ap (λ xs. prescribed d s.domains xs []) (created-rivals p d s c.own_row)
          ∙ sym in_sync,
    )
