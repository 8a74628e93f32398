-- ===== src/Zone/Untouched.antt =====
-- The platform's own records never change the row of a custom record (internal/activity/dns.go).
use mathlib.Core.List.{append-nil}
use hosting.Common.{
  ℕ, ◌≡◌, refl, ◌∙◌, inl, inr, Bool, true, false, Bytes, codes, is_empty, some, List, [], ◌∷◌, ◌++◌,
  any, ltb, Bool-cases, Option-cases, arith,
}
use hosting.Common.Text.{bytes_eq}
use hosting.Common.TextLaws.{bytes_eq_iff}
use hosting.Zone.Stores.{
  Zone, ZoneRecord, DnsRecord, Stores, Server, exec, active_zone, references_fqdn,
  references_domain,
}
use hosting.Zone.PowerDns.{
  insert_record, write_dns_record, delete_dns_record, get_dns_zone_id_by_name,
}
use hosting.Zone.Auto.{
  AutoRecordDef, LbAddress, first_zone, find_zone_for_fqdn, has_custom_record, insert_auto,
  create_auto_record, create_address_record, auto_create_dns_records, address_type, delete_rows,
  fqdn_row, auto_delete_dns_records, auto_row,
}
use hosting.Zone.Email.{email_row}
use hosting.Zone.Override.{
  AutoRec, withdraw, restore, deactivate_auto_records, reactivate_auto_records,
}
use hosting.Zone.Served.{keep, keep-append}
use hosting.Zone.Restored.{keep-remove_disjoint}
use hosting.Zone.Dropping.{is_custom, custom_stays}
use hosting.Zone.Keeps.{
  customs, KeepsCustom, KeepsCustom-bind, KeepsCustom-wrap, KeepsCustom-attempt, KeepsCustom-ignore,
  KeepsCustom-pure, KeepsCustom-if, KeepsCustom-elim, KeepsCustom-query, KeepsCustom-exec,
  KeepsCustom-for_each,
}

module _ (srv : Server) where
  exec-some-KeepsCustom :
      (f : Stores → Stores)
      → ((s : Stores) → customs (f s) ≡ customs s)
      → KeepsCustom (exec srv (λ _ s. some (f s)))
  exec-some-KeepsCustom f h =
      KeepsCustom-exec srv _ (λ n s s' e. let q : s' ≡ f s = cc in rw q (h s))

  pub write-KeepsCustom : (p : DnsRecord) → KeepsCustom (write_dns_record srv p)
  unfolding write_dns_record insert_record
  write-KeepsCustom p =
      KeepsCustom-bind (KeepsCustom-wrap (exec-some-KeepsCustom _ (λ s. refl)) _)
        (λ _. KeepsCustom-wrap (KeepsCustom-exec srv _ (λ n s s' e. inserted p s s' e)) _)
    where
      inserted :
          (p : DnsRecord) (s s' : Stores) → insert_record p s ≡ some s' → customs s' ≡ customs s
      inserted p s s' e = elim (Bool-cases (references_domain p.domain_id s.domains)) [
        | inl y ↦
            let e' : some (record s { records = s.records ++ (p ∷ []) }) ≡ some s' = rw y at e in
            let q : s' ≡ record s { records = s.records ++ (p ∷ []) } = cc in rw q refl
        | inr n ↦ absurd (cc (rw n at e))
      ]

  pub delete-KeepsCustom : (d : ℕ) (n k : Bytes) → KeepsCustom (delete_dns_record srv d n k)
  unfolding delete_dns_record
  delete-KeepsCustom d n k = KeepsCustom-wrap (exec-some-KeepsCustom _ (λ s. refl)) _

  pub zone_id-KeepsCustom : (name : Bytes) → KeepsCustom (get_dns_zone_id_by_name srv name)
  unfolding get_dns_zone_id_by_name
  zone_id-KeepsCustom name = KeepsCustom-wrap (KeepsCustom-query srv _) _

  first_zone-KeepsCustom : (cs : List Bytes) → KeepsCustom (first_zone srv cs)
  unfolding first_zone
  first_zone-KeepsCustom [] = KeepsCustom-pure []
  first_zone-KeepsCustom (c ∷ cs) =
      let rest = first_zone-KeepsCustom cs in
      KeepsCustom-bind (KeepsCustom-query srv _)
        (λ row. KeepsCustom-elim row rest (λ z. KeepsCustom-pure z.name))

  pub find_zone-KeepsCustom : (fqdn : Bytes) → KeepsCustom (find_zone_for_fqdn srv fqdn)
  unfolding find_zone_for_fqdn
  find_zone-KeepsCustom fqdn = first_zone-KeepsCustom _

  pub has_custom-KeepsCustom :
      (name : Bytes) (types : List Bytes) → KeepsCustom (has_custom_record srv name types)
  unfolding has_custom_record
  has_custom-KeepsCustom name types =
      KeepsCustom-if (is_empty types) (KeepsCustom-pure false) (KeepsCustom-query srv _)

  -- An auto row behind the others is no custom row.
  pub added_row :
      (id : Bytes) (z : Zone) (d : AutoRecordDef) (s : Stores)
      → keep is_custom (s.zone_records ++ (auto_row id z d ∷ [])) ≡ customs s
  unfolding keep bytes_eq
  added_row id z d s = keep-append is_custom s.zone_records _ ∙ append-nil _

  insert_auto-keeps :
      (known : Zone → AutoRecordDef → ZoneRecord → Bool) (d : AutoRecordDef) (n : ℕ) (s s' : Stores)
      → insert_auto srv known d n s ≡ some s'
      → customs s' ≡ customs s
  unfolding insert_auto
  insert_auto-keeps known d n s s' e = elim (Option-cases (active_zone d.zone_name s.zones)) [
    | inl a ↦
        let q : some s ≡ some s' = rw (a, insert_auto) at e in let q' : s' ≡ s = cc in rw q' refl
    | inr (z, a) ↦ elim (Bool-cases (any (known z d) s.zone_records)) [
      | inl y ↦
          let q : some s ≡ some s' = rw (insert_auto, a, y) at e in
          let q' : s' ≡ s = cc in rw q' refl
      | inr f ↦ elim (Bool-cases (references_fqdn (some d.source_fqdn_id) s.fqdns)) [
        | inl r ↦
            let row = auto_row (srv.uuid n) z d in
            let q : some (record s { zone_records = s.zone_records ++ (row ∷ []) }) ≡ some s' =
              rw (insert_auto, a, f, r) at e in
            let q' : s' ≡ record s { zone_records = s.zone_records ++ (row ∷ []) } = cc in
            rw q' (added_row (srv.uuid n) z d s)
        | inr r ↦ absurd (cc (rw (insert_auto, a, f, r) at e))
      ]
    ]
  ]

  pub auto-KeepsCustom : (d : AutoRecordDef) → KeepsCustom (create_auto_record srv d)
  unfolding create_auto_record
  auto-KeepsCustom d = KeepsCustom-bind (KeepsCustom-wrap (has_custom-KeepsCustom _ _) _) (λ custom.
      KeepsCustom-bind
        (KeepsCustom-if _ (KeepsCustom-wrap (write-KeepsCustom _) _) (KeepsCustom-pure tt))
        (λ _. KeepsCustom-wrap (KeepsCustom-exec srv _ (insert_auto-keeps _ d)) _))

  address-KeepsCustom :
      (custom : Bool) (d : AutoRecordDef) → KeepsCustom (create_address_record srv custom d)
  unfolding create_address_record
  address-KeepsCustom custom d =
      KeepsCustom-bind
        (KeepsCustom-if _ (KeepsCustom-wrap (write-KeepsCustom _) _) (KeepsCustom-pure tt))
        (λ _. KeepsCustom-wrap (KeepsCustom-exec srv _ (insert_auto-keeps _ d)) _)

  pub rows-KeepsCustom :
      (p : ZoneRecord → Bool)
      → ((r : ZoneRecord) → is_custom r ≡ true → p r ≡ false)
      → KeepsCustom (delete_rows srv p)
  unfolding delete_rows
  rows-KeepsCustom p h =
      exec-some-KeepsCustom _ (λ s. keep-remove_disjoint is_custom p h s.zone_records)

  pub email_stays :
      (fqdn : Bytes) (r : ZoneRecord) → is_custom r ≡ true → email_row srv fqdn r ≡ false
  unfolding email_row bytes_eq
  email_stays fqdn r h =
      let e : r.managed_by ≡ codes "custom" = (bytes_eq_iff r.managed_by (codes "custom")).0 h in
      rw (e) (ground arith)

  pub auto_create-KeepsCustom :
      (fqdn : Bytes) (addresses : List LbAddress) (source : Bytes)
      → KeepsCustom (auto_create_dns_records srv fqdn addresses source)
  unfolding auto_create_dns_records
  auto_create-KeepsCustom fqdn addresses source =
      KeepsCustom-bind (KeepsCustom-wrap (find_zone-KeepsCustom fqdn) _) (λ zone.
        KeepsCustom-if (is_empty zone) (KeepsCustom-pure tt) (
          KeepsCustom-bind (KeepsCustom-wrap (zone_id-KeepsCustom zone) _) (λ domain.
            KeepsCustom-bind (KeepsCustom-wrap (has_custom-KeepsCustom _ _) _) (λ custom.
              KeepsCustom-for_each addresses (λ a.
                KeepsCustom-elim (address_type a.family) (KeepsCustom-pure tt)
                  (λ kind. address-KeepsCustom custom _))))))

  pub auto_delete-KeepsCustom : (fqdn : Bytes) → KeepsCustom (auto_delete_dns_records srv fqdn)
  unfolding auto_delete_dns_records
  auto_delete-KeepsCustom fqdn =
      let rows = rows-KeepsCustom (fqdn_row fqdn) (custom_stays fqdn) in
      KeepsCustom-bind (KeepsCustom-wrap (find_zone-KeepsCustom fqdn) _) (λ zone.
        KeepsCustom-if (is_empty zone) (KeepsCustom-ignore rows) (
          KeepsCustom-bind (KeepsCustom-wrap (zone_id-KeepsCustom zone) _) (λ domain.
            KeepsCustom-bind
              (KeepsCustom-if (ltb 0 domain)
                (KeepsCustom-bind (KeepsCustom-ignore (delete-KeepsCustom _ _ _))
                  (λ _. KeepsCustom-ignore (delete-KeepsCustom _ _ _)))
                (KeepsCustom-pure tt))
              (λ _. KeepsCustom-wrap rows _))))

  withdraw-KeepsCustom : (x : AutoRec) → KeepsCustom (withdraw srv x)
  unfolding withdraw
  withdraw-KeepsCustom x =
      KeepsCustom-bind (KeepsCustom-attempt (zone_id-KeepsCustom x.zone_name)) (λ domain.
        KeepsCustom-if _ (KeepsCustom-pure tt) (KeepsCustom-ignore (delete-KeepsCustom _ _ _)))

  restore-KeepsCustom : (x : AutoRec) → KeepsCustom (restore srv x)
  unfolding restore
  restore-KeepsCustom x =
      KeepsCustom-bind (KeepsCustom-attempt (zone_id-KeepsCustom x.zone_name)) (λ domain.
        KeepsCustom-if _ (KeepsCustom-pure tt) (KeepsCustom-ignore (write-KeepsCustom _)))

  pub deactivate-KeepsCustom :
      (name kind : Bytes) → KeepsCustom (deactivate_auto_records srv name kind)
  unfolding deactivate_auto_records
  deactivate-KeepsCustom name kind =
      KeepsCustom-bind (KeepsCustom-wrap (KeepsCustom-query srv _) _)
        (λ recs. KeepsCustom-for_each recs withdraw-KeepsCustom)

  pub reactivate-KeepsCustom :
      (name kind : Bytes) → KeepsCustom (reactivate_auto_records srv name kind)
  unfolding reactivate_auto_records
  reactivate-KeepsCustom name kind =
      KeepsCustom-bind (KeepsCustom-wrap (has_custom-KeepsCustom _ _) _) (λ custom.
        KeepsCustom-if custom (KeepsCustom-pure tt) (
          KeepsCustom-bind (KeepsCustom-wrap (KeepsCustom-query srv _) _)
            (λ recs. KeepsCustom-for_each recs restore-KeepsCustom)))
