-- ===== src/Access/Brands.antt =====
-- Whom the checks of scopes and brands let through.
use hosting.Common.{
  ◌≡◌, ◌≢◌, refl, sym, ◌↔◌, ◌⊎◌, inl, inr, Bool, true, false, ◌||◌, Bytes, codes, is_text, none,
  some, List, [], ◌∷◌, ◌++◌, any, is_empty, Bool-cases, arith,
}
use hosting.Common.Text.{bytes_eq}
use hosting.Common.TextLaws.{bytes_eq_iff}
use hosting.Access.{ApiKeyIdentity, has_brand_access, brand_ids, lists_brand, require_scope}

-- `x` is an element.
pub data In (x : Bytes) : List Bytes → Type 0 where
  here : {y : Bytes} {ys : List Bytes} → y ≡ x → In x (y ∷ ys)
  there : {y : Bytes} {ys : List Bytes} → In x ys → In x (y ∷ ys)

any_sound :
    (x y : Bytes) (xs : List Bytes)
    → any (λ s. bytes_eq s x || bytes_eq s y) xs ≡ true
    → In x xs ⊎ In y xs
any_sound x y [] h = cc
any_sound x y (s ∷ xs) h = elim (Bool-cases (bytes_eq s x)) [
  | inl e ↦ inl (here ((bytes_eq_iff s x).0 e))
  | inr n ↦ elim (Bool-cases (bytes_eq s y)) [
    | inl e ↦ inr (here ((bytes_eq_iff s y).0 e))
    | inr n' ↦ elim (any_sound x y xs (rw (n, n') at h)) [
      | inl i ↦ inl (there i)
      | inr i ↦ inr (there i)
    ]
  ]
]

any_left :
    (x y : Bytes) (xs : List Bytes) → In x xs → any (λ s. bytes_eq s x || bytes_eq s y) xs ≡ true
any_left x y [] i = elim i [ ]
any_left x y (s ∷ xs) (here e) = rw ((bytes_eq_iff s x).1 e) refl
any_left x y (s ∷ xs) (there i) = let ih = any_left x y xs i in ground arith

any_right :
    (x y : Bytes) (xs : List Bytes) → In y xs → any (λ s. bytes_eq s x || bytes_eq s y) xs ≡ true
any_right x y [] i = elim i [ ]
any_right x y (s ∷ xs) (here e) = let q = (bytes_eq_iff s y).1 e in ground arith
any_right x y (s ∷ xs) (there i) = let ih = any_right x y xs i in ground arith

-- A request passes the check of a scope exactly if it has an identity, and this has the wildcard
-- `*:*` or the scope itself.
pub require_scope_iff :
    (resource action : Bytes) (i : ApiKeyIdentity)
    → (require_scope resource action none ≢ none)
      × ((require_scope resource action (some i) ≡ none)
          ↔ (In (codes "*:*") i.scopes ⊎ In (resource ++ (codes ":" ++ action)) i.scopes))
unfolding require_scope
require_scope_iff resource action i =
    let target = resource ++ (codes ":" ++ action) in
    (
      λ e. cc,
      (
        λ h. any_sound (codes "*:*") target i.scopes (ground arith),
        λ h.
            let p : any (λ s. bytes_eq s (codes "*:*") || bytes_eq s target) i.scopes ≡ true =
              elim h [
                | inl x ↦ any_left (codes "*:*") target i.scopes x
                | inr x ↦ any_right (codes "*:*") target i.scopes x
              ] in
            rw p refl,
      ),
    )

any_or_true :
    (p q : Bytes → Bool) (xs : List Bytes) → any p xs ≡ true → any (λ x. p x || q x) xs ≡ true
any_or_true p q [] h = h
any_or_true p q (x ∷ xs) h = let ih = any_or_true p q xs in ground arith

any_or_false :
    (p q : Bytes → Bool) (xs : List Bytes) → any p xs ≡ false → any (λ x. p x || q x) xs ≡ any q xs
any_or_false p q [] h = refl
any_or_false p q (x ∷ xs) h =
    let e : p x ≡ false = ground arith in
    let ih = any_or_false p q xs (ground arith) in rw (e, ih) refl

-- For an identity with brands, the listings of tenants and zones show a brand's rows exactly if the
-- access check lets the identity at that brand.
pub lists_brand-has_brand_access :
    (i : ApiKeyIdentity) (b : Bytes)
    → is_empty i.brands ≡ false
    → lists_brand (brand_ids (some i)) b ≡ has_brand_access (some i) b
unfolding lists_brand brand_ids has_brand_access
lists_brand-has_brand_access i b h =
    let star = λ (x : Bytes). is_text "*" x in
    let same = λ (x : Bytes). bytes_eq x b in
    elim (Bool-cases (any star i.brands)) [
      | inl e ↦ rw e (sym (any_or_true star same i.brands e))
      | inr e ↦ rw (e, h) (sym (any_or_false star same i.brands e))
    ]

-- An identity without brands, or none at all, has access to no brand, and yet the listings show it
-- the rows of every brand.
pub no_brands_lists_all :
    (i : ApiKeyIdentity) (b : Bytes)
    → i.brands ≡ []
    → (has_brand_access (some i) b ≡ false)
      × (lists_brand (brand_ids (some i)) b ≡ true)
      × (has_brand_access none b ≡ false)
      × (lists_brand (brand_ids none) b ≡ true)
unfolding lists_brand brand_ids has_brand_access
no_brands_lists_all i b h = (rw h refl, rw h refl, refl, refl)
