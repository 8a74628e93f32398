-- ===== src/Zone/Platform.antt =====
-- All activities on the platform's own records leave custom rows alone (internal/activity/dns.go).
use hosting.Common.{
  ℕ, ◌≡◌, refl, inl, inr, Bool, ◌&&◌, Bytes, is_empty, Option, none, some, List, [], ◌∷◌, ◌++◌, any,
  ltb, ◌==◌, Bool-cases, bytes_eq,
}
use hosting.Zone.Stores.{Zone, Stores, Server, wrap, references_fqdn}
use hosting.Zone.Auto.{
  AutoRecordDef, create_auto_record, LbAddress, address_type, auto_row, same_content,
  auto_create_dns_records, auto_delete_dns_records,
}
use hosting.Zone.Email.{
  EmailParams, ServiceEntry, auto_create_email_dns_records, auto_delete_email_dns_records, when,
  withdraw_email, keys_or_none, email_row, create_service_record, create_service_hostname_records,
}
use hosting.Zone.Override.{deactivate_auto_records, reactivate_auto_records}
use hosting.Zone.Retroactive.{
  Catalog, RetroactiveParams, Brand, insert_retroactive, create_retroactive, true_only, or_missing,
  get_lb_addresses_for_brand, retroactive_auto_records,
}
use hosting.Zone.Keeps.{
  customs, KeepsCustom, KeepsCustom-bind, KeepsCustom-wrap, KeepsCustom-attempt, KeepsCustom-ignore,
  KeepsCustom-pure, KeepsCustom-fail, KeepsCustom-if, KeepsCustom-elim, KeepsCustom-query,
  KeepsCustom-exec, KeepsCustom-for_each,
}
use hosting.Zone.Untouched.{
  auto-KeepsCustom, find_zone-KeepsCustom, zone_id-KeepsCustom, has_custom-KeepsCustom,
  write-KeepsCustom, delete-KeepsCustom, rows-KeepsCustom, email_stays, auto_create-KeepsCustom,
  auto_delete-KeepsCustom, deactivate-KeepsCustom, reactivate-KeepsCustom, added_row,
}

module _ (srv : Server) where
  optional-KeepsCustom :
      (b : Bool) (d : AutoRecordDef) (text : Bytes)
      → KeepsCustom (when b (wrap text (create_auto_record srv d)))
  optional-KeepsCustom b d text =
      KeepsCustom-if b (KeepsCustom-wrap (auto-KeepsCustom srv d) text) (KeepsCustom-pure tt)

  email-KeepsCustom : (p : EmailParams) → KeepsCustom (auto_create_email_dns_records srv p)
  unfolding auto_create_email_dns_records
  email-KeepsCustom p =
      KeepsCustom-bind (KeepsCustom-wrap (find_zone-KeepsCustom srv p.fqdn) _) (λ zone.
        KeepsCustom-if (is_empty zone) (KeepsCustom-pure tt) (
          KeepsCustom-bind (KeepsCustom-wrap (zone_id-KeepsCustom srv zone) _) (λ domain.
            KeepsCustom-bind (optional-KeepsCustom _ _ _) (λ _.
              KeepsCustom-bind (KeepsCustom-wrap (auto-KeepsCustom srv _) _) (λ _.
                KeepsCustom-bind (optional-KeepsCustom _ _ _) (λ _. optional-KeepsCustom _ _ _))))))

  email_removal-KeepsCustom : (fqdn : Bytes) → KeepsCustom (auto_delete_email_dns_records srv fqdn)
  unfolding auto_delete_email_dns_records withdraw_email
  email_removal-KeepsCustom fqdn =
      KeepsCustom-bind (KeepsCustom-wrap (find_zone-KeepsCustom srv fqdn) _) (λ zone.
        KeepsCustom-bind
          (KeepsCustom-if _
            (KeepsCustom-bind (KeepsCustom-wrap (zone_id-KeepsCustom srv zone) _) (λ domain.
              KeepsCustom-if (ltb 0 domain)
                (KeepsCustom-bind (KeepsCustom-ignore (delete-KeepsCustom srv _ _ _)) (λ _.
                  KeepsCustom-bind (KeepsCustom-attempt (KeepsCustom-query srv _)) (λ keys.
                    KeepsCustom-for_each (keys_or_none keys)
                      (λ k. KeepsCustom-ignore (delete-KeepsCustom srv _ _ _)))))
                (KeepsCustom-pure tt)))
            (KeepsCustom-pure tt))
          (λ _.
            KeepsCustom-wrap (rows-KeepsCustom srv (email_row srv fqdn) (email_stays srv fqdn)) _))

  service-KeepsCustom :
      (zone : Bytes) (domain : ℕ) (hostname kind content : Bytes)
      → KeepsCustom (create_service_record srv zone domain hostname kind content)
  unfolding create_service_record
  service-KeepsCustom zone domain hostname kind content =
      KeepsCustom-if _ (KeepsCustom-wrap (auto-KeepsCustom srv _) _) (KeepsCustom-pure tt)

  services-KeepsCustom :
      (base tenant : Bytes) (vs : List ServiceEntry)
      → KeepsCustom (create_service_hostname_records srv base tenant vs)
  unfolding create_service_hostname_records
  services-KeepsCustom base tenant vs =
      KeepsCustom-bind (KeepsCustom-wrap (find_zone-KeepsCustom srv base) _) (λ zone.
        KeepsCustom-if (is_empty zone) (KeepsCustom-pure tt) (
          KeepsCustom-bind (KeepsCustom-wrap (zone_id-KeepsCustom srv zone) _) (λ domain.
            KeepsCustom-for_each vs (λ v.
              KeepsCustom-bind (service-KeepsCustom zone domain _ _ _)
                (λ _. service-KeepsCustom zone domain _ _ _)))))

  insert_retroactive-keeps :
      (z : Zone) (d : AutoRecordDef) (n : ℕ) (s s' : Stores)
      → insert_retroactive srv z d n s ≡ some s'
      → customs s' ≡ customs s
  unfolding insert_retroactive
  insert_retroactive-keeps z d n s s' e =
      elim (Bool-cases (any (same_content z d) s.zone_records)) [
        | inl y ↦
            let q : some s ≡ some s' = rw (insert_retroactive, y) at e in
            let q' : s' ≡ s = cc in rw q' refl
        | inr f ↦
            elim (Bool-cases (
              any (λ y. bytes_eq y.id z.id) s.zones
              && references_fqdn (some d.source_fqdn_id) s.fqdns)) [
                | inl r ↦
                    let row = auto_row (srv.uuid n) z d in
                    let q : some (record s { zone_records = s.zone_records ++ (row ∷ []) })
                        ≡ some s' =
                      rw (insert_retroactive, f, r) at e in
                    let q' : s' ≡ record s { zone_records = s.zone_records ++ (row ∷ []) } = cc in
                    rw q' (added_row srv (srv.uuid n) z d s)
                | inr r ↦ absurd (cc (rw (insert_retroactive, f, r) at e))
              ]
      ]

  created-KeepsCustom : (z : Zone) (d : AutoRecordDef) → KeepsCustom (create_retroactive srv z d)
  unfolding create_retroactive
  created-KeepsCustom z d =
      KeepsCustom-bind (KeepsCustom-attempt (has_custom-KeepsCustom srv _ _)) (λ custom.
        KeepsCustom-bind
          (KeepsCustom-if (true_only custom) (KeepsCustom-pure tt)
            (KeepsCustom-ignore (write-KeepsCustom srv _)))
          (λ _. KeepsCustom-ignore (KeepsCustom-exec srv _ (insert_retroactive-keeps z d))))

  brand-KeepsCustom : (b : Option Brand) → KeepsCustom (or_missing b)
  brand-KeepsCustom none = KeepsCustom-fail _
  brand-KeepsCustom (some b) = KeepsCustom-pure b

  retroactive-KeepsCustom :
      (cat : Catalog) (p : RetroactiveParams) → KeepsCustom (retroactive_auto_records srv cat p)
  unfolding retroactive_auto_records get_lb_addresses_for_brand
  retroactive-KeepsCustom cat p =
      KeepsCustom-bind
        (KeepsCustom-wrap (KeepsCustom-bind (KeepsCustom-query srv _) brand-KeepsCustom) _)
        (λ brand. KeepsCustom-bind (KeepsCustom-wrap (zone_id-KeepsCustom srv _) _) (λ domain.
          KeepsCustom-if (domain == 0) (KeepsCustom-pure tt) (
            KeepsCustom-bind (KeepsCustom-wrap (KeepsCustom-query srv _) _) (λ addresses.
              KeepsCustom-bind (KeepsCustom-wrap (KeepsCustom-query srv _) _) (λ fqdns.
                KeepsCustom-bind
                  (KeepsCustom-for_each fqdns (λ f. KeepsCustom-for_each addresses (λ a.
                    KeepsCustom-elim (address_type a.family) (KeepsCustom-pure tt)
                      (λ kind. created-KeepsCustom _ _))))
                  (λ _. KeepsCustom-bind (KeepsCustom-wrap (KeepsCustom-query srv _) _) (λ mailed.
                    KeepsCustom-for_each mailed
                      (λ f. KeepsCustom-wrap (email-KeepsCustom _) _))))))))

  -- Whatever statements fail, the activities that create, remove, set aside and put back the records
  -- that the platform manages for host names, mail and services leave the rows of custom records as
  -- they are.
  pub auto_records-KeepsCustom :
      (fqdn source name kind base tenant : Bytes) (addresses : List LbAddress) (mail : EmailParams)
      (vs : List ServiceEntry) (cat : Catalog) (late : RetroactiveParams)
      → KeepsCustom (auto_create_dns_records srv fqdn addresses source)
        × KeepsCustom (auto_delete_dns_records srv fqdn)
        × KeepsCustom (auto_create_email_dns_records srv mail)
        × KeepsCustom (auto_delete_email_dns_records srv fqdn)
        × KeepsCustom (create_service_hostname_records srv base tenant vs)
        × KeepsCustom (retroactive_auto_records srv cat late)
        × KeepsCustom (deactivate_auto_records srv name kind)
        × KeepsCustom (reactivate_auto_records srv name kind)
  auto_records-KeepsCustom fqdn source name kind base tenant addresses mail vs cat late = (
    auto_create-KeepsCustom srv fqdn addresses source,
    auto_delete-KeepsCustom srv fqdn,
    email-KeepsCustom mail,
    email_removal-KeepsCustom fqdn,
    services-KeepsCustom base tenant vs,
    retroactive-KeepsCustom cat late,
    deactivate-KeepsCustom srv name kind,
    reactivate-KeepsCustom srv name kind,
  )
