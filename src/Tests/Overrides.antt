-- ===== src/Tests/Overrides.antt =====
-- A zone with a host name of the platform and a custom record of the same name, and the theorems of
-- zones at it.
use hosting.Common.{◌+◌, ◌≡◌, refl, inl, false, Bytes, codes, some, none, List, [], ◌∷◌, arith}
use hosting.Common.Text.{bytes_eq}
use hosting.Common.Ascii.{split}
use hosting.Common.Int.{pos}
use hosting.Zone.Stores.{
  for_each, references_domain, Zone, ZoneRecord, DnsRecord, Stores, Server, ◌>>◌, ◌>>=◌,
  active_zone, references_fqdn, query,
}
use hosting.Zone.PowerDns.{find_domain, remove, in_set}
use hosting.Zone.Auto.{
  overrides, find_zone_for_fqdn, first_zone, candidates, auto_delete_dns_records,
}
use hosting.Zone.Email.{ServiceEntry, create_service_hostname_records}
use hosting.Zone.Override.{auto_recs}
use hosting.Zone.Records.{ZoneRecordParams, has_id, create_zone_record, delete_zone_record}
use hosting.Zone.Runs.{Faultless, Runs}
use hosting.Zone.Served.{served, prescribed, keep}
use hosting.Zone.Find.{IsLongest, LiesIn, find_zone-IsLongest}
use hosting.Zone.Prescribed.{prescribed_by}
use hosting.Zone.Overridden.{IsCustom, create-lost, delete-restores, create-delete}
use hosting.Zone.Hostnames.{Fails, services-refused}
use hosting.Zone.Refines.{
  Change, write, update, delete, delete_domain, perform, sets_of, change_all, perform-refines,
}
use hosting.Zone.Dropping.{is_custom, auto_delete-drops_custom}

abbrev sound : Server
sound = record { fault = λ n. none; violation = []; uuid = λ n. []; like = λ s p. false }

sound-Faultless : Faultless sound
sound-Faultless n = refl

abbrev www : Bytes
www = codes "www.a.io"

abbrev zone_row : Zone
zone_row = record { id = codes "z1"; name = codes "a.io"; status = codes "active" }

abbrev auto_www : ZoneRecord
auto_www = record {
  id = codes "r1";
  zone_id = codes "z1";
  kind = codes "A";
  name = www;
  content = codes "10.0.0.1";
  ttl = pos 300;
  priority = none;
  managed_by = codes "auto";
  source_type = codes "fqdn";
  source_fqdn_id = some (codes "f1");
  status = codes "active";
  status_message = none;
}

abbrev custom_www : ZoneRecord
custom_www = record auto_www {
  id = codes "r2";
  content = codes "192.0.2.7";
  managed_by = codes "custom";
  source_type = [];
  source_fqdn_id = none;
  status = codes "pending";
}

abbrev served_www : DnsRecord
served_www = record {
  domain_id = 1;
  name = www;
  kind = codes "A";
  content = codes "10.0.0.1";
  ttl = pos 300;
  prio = none;
}

abbrev with_auto : Stores
with_auto = record {
  zones = zone_row ∷ [];
  zone_records = auto_www ∷ custom_www ∷ [];
  fqdns = record { id = codes "f1"; fqdn = www; status = codes "active" } ∷ [];
  domains = record { id = 1; name = codes "a.io"; kind = codes "NATIVE" } ∷ [];
  records = served_www ∷ [];
  next_domain = 2;
}

abbrev without_auto : Stores
without_auto = record with_auto { zone_records = custom_www ∷ []; records = [] }

abbrev new_www : ZoneRecordParams
new_www = record {
  record_id = codes "r2";
  name = www;
  kind = codes "A";
  content = codes "192.0.2.7";
  ttl = pos 300;
  priority = none;
  managed_by = codes "custom";
  zone_name = codes "a.io";
}

with_auto-IsCustom : IsCustom new_www 1 with_auto
unfolding find_domain bytes_eq
with_auto-IsCustom = record {
  custom = refl;
  found = refl;
  numbered = omega arith;
  own_row = ((λ h. cc), ((λ h. refl), tt));
}

without_auto-IsCustom : IsCustom new_www 1 without_auto
unfolding find_domain bytes_eq
without_auto-IsCustom = record {
  custom = refl;
  found = refl;
  numbered = omega arith;
  own_row = ((λ h. refl), tt);
}

create-lost_example :
    (s' : Stores) × Runs (create_zone_record sound new_www) with_auto tt s'
    × (served 1 www (codes "A") s'.records ≡ [])
unfolding auto_recs find_domain bytes_eq
create-lost_example = create-lost sound sound-Faultless new_www 1 with_auto with_auto-IsCustom refl

delete-restores_example :
    (s' : Stores) × Runs (delete_zone_record sound new_www) with_auto tt s'
    × (s'.zone_records ≡ remove (has_id (codes "r2")) with_auto.zone_records)
    × (served 1 www (codes "A") s'.records
        ≡ prescribed_by 1 www
            (codes "A")
            with_auto.domains
            with_auto.zones
            with_auto.zone_records
            [])
unfolding overrides remove bytes_eq
delete-restores_example =
    delete-restores sound sound-Faultless new_www 1 with_auto with_auto-IsCustom refl

create-delete_example :
    (s' : Stores) × Runs
      (create_zone_record sound new_www >> delete_zone_record sound new_www)
      with_auto
      tt
      s'
    × (s'.zone_records ≡ remove (has_id (codes "r2")) with_auto.zone_records)
    × (served 1 www (codes "A") s'.records ≡ served 1 www (codes "A") with_auto.records)
unfolding overrides remove bytes_eq keep prescribed auto_recs find_domain in_set
create-delete_example =
    create-delete sound sound-Faultless new_www 1 with_auto with_auto-IsCustom refl refl

find_zone-IsLongest_example :
    (found : Bytes) × Runs (find_zone_for_fqdn sound www) with_auto found with_auto
    × IsLongest with_auto.zones (LiesIn www) found
find_zone-IsLongest_example = find_zone-IsLongest sound sound-Faultless www with_auto

abbrev ssh : List ServiceEntry
ssh = record { service = codes "ssh"; ip = codes "10.0.0.2"; ip6 = [] } ∷ []

services-refused_example :
    Fails
      (create_service_hostname_records sound (codes "a.io") (codes "t1") ssh)
      with_auto
      with_auto.zone_records
unfolding references_fqdn active_zone bytes_eq
services-refused_example =
    services-refused sound sound-Faultless with_auto refl refl (codes "a.io") (codes "t1")
      (codes "a.io") ssh (zone_row, refl) (inl refl) (omega arith) refl

zone_of_www : Runs (find_zone_for_fqdn sound www) with_auto (codes "a.io") with_auto
unfolding find_zone_for_fqdn first_zone candidates split query active_zone bytes_eq ◌>>=◌
zone_of_www = record { ends = λ n. (n + 1 + 1, refl) }

auto_delete-drops_custom_example :
    (s' : Stores) × Runs (auto_delete_dns_records sound www) with_auto tt s'
    × (keep is_custom s'.zone_records ≡ keep is_custom with_auto.zone_records)
    × (served 1 www (codes "A") s'.records ≡ [])
    × (served 1 www (codes "AAAA") s'.records ≡ [])
unfolding find_domain bytes_eq
auto_delete-drops_custom_example =
    auto_delete-drops_custom sound sound-Faultless www (codes "a.io") 1 with_auto zone_of_www
      (omega arith) refl (omega arith)

abbrev changes : List Change
changes =
    write (record served_www { content = codes "10.0.0.9" })
    ∷ delete 1 www (codes "AAAA")
    ∷ update served_www
    ∷ delete_domain 2
    ∷ []

perform-refines_example :
    (s' : Stores) × Runs (for_each changes (perform sound)) with_auto tt s'
    × (sets_of s'.records ≡ change_all changes (sets_of with_auto.records))
unfolding references_domain
perform-refines_example =
    perform-refines sound sound-Faultless changes with_auto (refl, (tt, (tt, (tt, tt))))
