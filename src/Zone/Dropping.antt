-- ===== src/Zone/Dropping.antt =====
-- `AutoDeleteDNSRecords` takes custom records out of PowerDNS along with its own
-- (internal/activity/dns.go).
use hosting.Common.{
  ℕ, ◌≤◌, ◌≡◌, ◌≢◌, refl, ap, ◌∙◌, Bool, true, false, Bytes, codes, is_text, length, some, [], ltb,
  arith,
}
use hosting.Common.Text.{bytes_eq}
use hosting.Common.TextLaws.{bytes_eq_iff}
use hosting.Zone.Stores.{ZoneRecord, Stores, Server}
use hosting.Zone.PowerDns.{find_domain, remove, in_set}
use hosting.Zone.Auto.{find_zone_for_fqdn, auto_delete_dns_records, delete_rows, fqdn_row}
use hosting.Zone.Runs.{Faultless, Runs, Runs-bind, Runs-then, Runs-wrap, Runs-ignore, Runs-exec}
use hosting.Zone.Served.{keep, keep-remove, keep-remove_self, served}
use hosting.Zone.Restored.{keep-remove_disjoint}
use hosting.Zone.Custom.{delete_dns_record-Runs, get_dns_zone_id-Runs}
use hosting.Zone.Hostnames.{not_empty}

abbrev pub is_custom : ZoneRecord → Bool
is_custom r = is_text "custom" r.managed_by

pub custom_stays : (fqdn : Bytes) (r : ZoneRecord) → is_custom r ≡ true → fqdn_row fqdn r ≡ false
unfolding fqdn_row bytes_eq
custom_stays fqdn r h =
    let e : r.managed_by ≡ codes "custom" = (bytes_eq_iff r.managed_by (codes "custom")).0 h in
    rw (e) (ground arith)

nothing : {A : Type 0} (p : A → Bool) → remove p [] ≡ []
unfolding remove
nothing p = refl

module _ (srv : Server) (quiet : Faultless srv) (fqdn zone : Bytes) (d : ℕ) (s : Stores) where
  -- Where no statement fails and the zone that is found for a host name has a domain in PowerDNS,
  -- the removal of its auto records succeeds, no custom record leaves the core database, and
  -- PowerDNS serves no A and no AAAA record under the name, not even custom ones.
  pub auto_delete-drops_custom :
      Runs (find_zone_for_fqdn srv fqdn) s zone s
      → 1 ≤ length zone
      → find_domain zone s.domains ≡ some d
      → d ≢ 0
      → (s' : Stores) × Runs (auto_delete_dns_records srv fqdn) s tt s'
        × (keep is_custom s'.zone_records ≡ keep is_custom s.zone_records)
        × (served d fqdn (codes "A") s'.records ≡ [])
        × (served d fqdn (codes "AAAA") s'.records ≡ [])
  unfolding auto_delete_dns_records delete_rows
  auto_delete-drops_custom at_zone named found nz =
      let full = not_empty zone named in
      let positive : ltb 0 d ≡ true = ground arith in
      let no_a = remove (in_set d fqdn (codes "A")) s.records in
      let rest = remove (in_set d fqdn (codes "AAAA")) no_a in
      (
        record s { zone_records = remove (fqdn_row fqdn) s.zone_records; records = rest },
        Runs-bind _ (Runs-wrap at_zone _) (
            rw full (
              Runs-bind _ (Runs-wrap (get_dns_zone_id-Runs srv quiet zone s) _) (
                rw (found, positive)
                  (Runs-then
                    (Runs-then (Runs-ignore (delete_dns_record-Runs srv quiet d fqdn (codes "A") s))
                      (Runs-ignore (delete_dns_record-Runs srv quiet d fqdn (codes "AAAA") _)))
                    (Runs-wrap (Runs-exec srv quiet _ _ _ (λ n. refl)) _))))),
        keep-remove_disjoint is_custom (fqdn_row fqdn) (custom_stays fqdn) s.zone_records,
        keep-remove (in_set d fqdn (codes "A")) (in_set d fqdn (codes "AAAA")) no_a
            ∙ ap (remove (in_set d fqdn (codes "AAAA")))
                (keep-remove_self (in_set d fqdn (codes "A")) s.records)
            ∙ nothing (in_set d fqdn (codes "AAAA")),
        keep-remove_self (in_set d fqdn (codes "AAAA")) no_a,
      )
