-- ===== src/Tests/Untouched.antt =====
-- The activities on the platform's own records at concrete arguments.
use hosting.Common.{true, codes, none, some, [], ◌∷◌, ◌%◌, ◌==◌, if◌then◌else◌}
use hosting.Zone.Stores.{Server}
use hosting.Zone.Auto.{auto_create_dns_records, auto_delete_dns_records}
use hosting.Zone.Email.{
  EmailParams, auto_create_email_dns_records, auto_delete_email_dns_records,
  create_service_hostname_records,
}
use hosting.Zone.Override.{deactivate_auto_records, reactivate_auto_records}
use hosting.Zone.Retroactive.{Catalog, RetroactiveParams, retroactive_auto_records}
use hosting.Zone.Keeps.{KeepsCustom}
use hosting.Zone.Platform.{auto_records-KeepsCustom}

-- Each third statement fails.
abbrev shaky : Server
shaky = record {
  fault = λ n. if n % 3 == 2 then some (codes "timeout") else none;
  violation = codes "violates foreign key constraint";
  uuid = λ n. n ∷ [];
  like = λ s p. true;
}

abbrev mail : EmailParams
mail = record {
  fqdn = codes "www.a.io";
  mail_hostname = codes "mail.a.io";
  spf_includes = [];
  dkim_selector = [];
  dkim_public_key = [];
  dmarc_policy = [];
  source_fqdn_id = codes "f1";
}

abbrev no_brands : Catalog
no_brands = record {
  brands = [];
  addresses = [];
  brand_clusters = [];
  email_fqdns = [];
  order = λ rows. rows;
}

abbrev late_zone : RetroactiveParams
late_zone = record { zone_name = codes "a.io"; zone_id = codes "z1"; brand_id = codes "b1" }

auto_records-KeepsCustom_example :
    KeepsCustom (
      auto_create_dns_records shaky
        (codes "www.a.io")
        (record { address = codes "10.0.0.1"; family = 4 } ∷ [])
        (codes "f1"))
    × KeepsCustom (auto_delete_dns_records shaky (codes "www.a.io"))
    × KeepsCustom (auto_create_email_dns_records shaky mail)
    × KeepsCustom (auto_delete_email_dns_records shaky (codes "www.a.io"))
    × KeepsCustom (create_service_hostname_records shaky (codes "a.io") (codes "t1") [])
    × KeepsCustom (retroactive_auto_records shaky no_brands late_zone)
    × KeepsCustom (deactivate_auto_records shaky (codes "www.a.io") (codes "A"))
    × KeepsCustom (reactivate_auto_records shaky (codes "www.a.io") (codes "A"))
auto_records-KeepsCustom_example =
    auto_records-KeepsCustom shaky (codes "www.a.io") (codes "f1") (codes "www.a.io") (codes "A")
      (codes "a.io") (codes "t1") (record { address = codes "10.0.0.1"; family = 4 } ∷ []) mail []
      no_brands late_zone
