-- ===== src/Zone/Prescribed.antt =====
-- What the rows of zone_records prescribe that PowerDNS is to serve under a name and type, read off the
-- rows one by one, beside the query of internal/activity/dns.go and what is made of its answer.
use hosting.Common.{
  ℕ, ◌≡◌, refl, ◌∙◌, inl, inr, Bool, false, ◌&&◌, Bytes, bytes_eq, is_text, Option, none, some,
  List, [], ◌∷◌, if◌then◌else◌, ◌==◌, Bool-cases,
}
use hosting.Zone.Stores.{Zone, ZoneRecord, Domain, DnsRecord, zone_by_id}
use hosting.Zone.PowerDns.{find_domain, or_zero}
use hosting.Zone.Override.{is_auto, auto_recs, join_zone}
use hosting.Zone.Served.{put, prescribed, stands_for}

-- The zone's domain in PowerDNS is d.
abbrev is_in_domain : ℕ → List Domain → Option Zone → Bool
is_in_domain d ds none = false
is_in_domain d ds (some z) = or_zero (find_domain z.name ds) == d

-- An active row of the platform's, with that name and type.
abbrev is_asked : Bytes → Bytes → ZoneRecord → Bool
is_asked name kind r =
    bytes_eq r.name name
    && (bytes_eq r.kind kind && (is_text "auto" r.managed_by && is_text "active" r.status))

-- Each such row of a zone with the domain d puts the record that it stands for.
unfoldable pub prescribed_by :
    ℕ → Bytes → Bytes → List Domain → List Zone → List ZoneRecord → List DnsRecord → List DnsRecord
prescribed_by d name kind ds zs [] rs = rs
prescribed_by d name kind ds zs (r ∷ rows) rs = prescribed_by d name kind ds zs rows (
    if is_asked name kind r && is_in_domain d ds (zone_by_id r.zone_id zs)
    then put (stands_for d r) rs
    else rs)

module _ (d : ℕ) (name kind : Bytes) (ds : List Domain) (zs : List Zone) where
  joined :
      (z : Option Zone) (r : ZoneRecord) (rows : List ZoneRecord) (rs : List DnsRecord)
      → prescribed d ds (join_zone z r (auto_recs name kind zs rows)) rs
        ≡ prescribed d ds
            (auto_recs name kind zs rows)
            (if is_in_domain d ds z then put (stands_for d r) rs else rs)
  unfolding prescribed
  joined none r rows rs = refl
  joined (some z) r rows rs = refl

  pub prescribed-auto_recs :
      (rows : List ZoneRecord) (rs : List DnsRecord)
      → prescribed d ds (auto_recs name kind zs rows) rs ≡ prescribed_by d name kind ds zs rows rs
  unfolding prescribed prescribed_by auto_recs is_auto
  prescribed-auto_recs [] rs = refl
  prescribed-auto_recs (r ∷ rows) rs = elim (Bool-cases (is_asked name kind r)) [
    | inl y ↦ rw y (joined (zone_by_id r.zone_id zs) r rows rs ∙ prescribed-auto_recs rows _)
    | inr n ↦ rw n (prescribed-auto_recs rows rs)
  ]
