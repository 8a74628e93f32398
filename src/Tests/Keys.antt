-- ===== src/Tests/Keys.antt =====
-- API keys.
use hosting.Common.{codes, some, [], ◌∷◌, refl, ◌≡◌}
use hosting.Access.{ApiKeyIdentity, has_brand_access, brand_ids, lists_brand}
use hosting.Access.Brands.{lists_brand-has_brand_access}

abbrev reseller : ApiKeyIdentity
reseller = record {
  id = codes "key-1";
  scopes = codes "zones:read" ∷ codes "zones:write" ∷ [];
  brands = codes "acme" ∷ [];
}

abbrev no_brands : ApiKeyIdentity
no_brands = record { id = codes "key-2"; scopes = codes "*:*" ∷ []; brands = [] }

lists_brand-has_brand_access_example :
    lists_brand (brand_ids (some reseller)) (codes "other")
    ≡ has_brand_access (some reseller) (codes "other")
lists_brand-has_brand_access_example = lists_brand-has_brand_access reseller (codes "other") refl
