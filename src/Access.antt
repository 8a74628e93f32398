-- ===== src/Access.antt =====
-- What an API key may do (internal/api/middleware/authz.go), and the listings that use it
-- (internal/core/tenant.go, internal/core/zone.go).
use hosting.Common.{
  Bool, true, false, ◌||◌, Bytes, codes, is_text, bytes_eq, Option, none, some, List, [], ◌∷◌, ◌++◌,
  any, is_empty, if◌then◌else◌,
}
pub mod Brands

pub record ApiKeyIdentity : Type 0 where
  pub id : Bytes
  pub scopes : List Bytes
  pub brands : List Bytes

-- An identity is missing where no key was checked.
unfoldable pub has_scope : Option ApiKeyIdentity → Bytes → Bytes → Bool
has_scope none resource action = false
has_scope (some identity) resource action =
    let target = resource ++ (codes ":" ++ action) in
    any (λ s. is_text "*:*" s || bytes_eq s target) identity.scopes

unfoldable pub has_brand_access : Option ApiKeyIdentity → Bytes → Bool
has_brand_access none brand_id = false
has_brand_access (some identity) brand_id =
    any (λ b. is_text "*" b || bytes_eq b brand_id) identity.brands

unfoldable pub is_platform_admin : Option ApiKeyIdentity → Bool
is_platform_admin none = false
is_platform_admin (some identity) = any (λ b. is_text "*" b) identity.brands

-- `nil` is the empty list.
unfoldable pub brand_ids : Option ApiKeyIdentity → List Bytes
brand_ids none = []
brand_ids (some identity) = if any (λ b. is_text "*" b) identity.brands then [] else identity.brands

-- `if len(params.BrandIDs) > 0 { query += AND brand_id = ANY(...) }`: whether a row of the brand is
-- among those listed.
unfoldable pub lists_brand : List Bytes → Bytes → Bool
lists_brand ids brand_id = if is_empty ids then true else any (λ b. bytes_eq b brand_id) ids

-- The middleware answers 403 with a text, or lets the request through.
unfoldable pub require_scope : Bytes → Bytes → Option ApiKeyIdentity → Option Bytes
unfolding has_scope
require_scope resource action identity =
    if has_scope identity resource action
    then none
    else some (codes "insufficient scope: requires " ++ (resource ++ (codes ":" ++ action)))

unfoldable pub require_platform_admin : Option ApiKeyIdentity → Option Bytes
unfolding is_platform_admin
require_platform_admin identity =
    if is_platform_admin identity then none else some (codes "platform admin access required")
