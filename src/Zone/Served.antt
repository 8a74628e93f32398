-- ===== src/Zone/Served.antt =====
-- The records that PowerDNS serves under a name and type, as the activities on its database change
-- them (internal/activity/powerdns_db.go, internal/activity/dns.go).
use hosting.Common.{
  ℕ, ◌≡◌, ◌≢◌, refl, ap, ◌∙◌, inl, inr, Bool, true, false, Bytes, Option, none, some, List, [], ◌∷◌,
  ◌++◌, if◌then◌else◌, ◌==◌, ==_iff, Bool-cases, arith, All, any,
}
use hosting.Common.TextLaws.{bytes_eq_iff}
use hosting.Zone.Stores.{Zone, ZoneRecord, Domain, DnsRecord, references_domain, zone_by_id}
use hosting.Zone.PowerDns.{find_domain, remove, in_set, same_record, or_zero}
use hosting.Zone.Override.{AutoRec, auto_recs, join_zone, is_auto, dns_record_of_row}

unfoldable pub keep : {A : Type 0} → (A → Bool) → List A → List A
keep p [] = []
keep p (x ∷ xs) = if p x then x ∷ keep p xs else keep p xs

pub keep-remove_self : {A : Type 0} (p : A → Bool) (xs : List A) → keep p (remove p xs) ≡ []
unfolding keep remove
keep-remove_self p [] = refl
keep-remove_self p (x ∷ xs) = let ih = keep-remove_self p xs in ground arith

pub keep-remove :
    {A : Type 0} (p q : A → Bool) (xs : List A) → keep p (remove q xs) ≡ remove q (keep p xs)
unfolding keep remove
keep-remove p q [] = refl
keep-remove p q (x ∷ xs) = let ih = keep-remove p q xs in ground arith

pub keep-append :
    {A : Type 0} (p : A → Bool) (xs ys : List A) → keep p (xs ++ ys) ≡ keep p xs ++ keep p ys
unfolding keep
keep-append p [] ys = refl
keep-append p (x ∷ xs) ys = let ih = keep-append p xs ys in ground arith

pub find_domain-references :
    (name : Bytes) (ds : List Domain) (i : ℕ)
    → find_domain name ds ≡ some i
    → references_domain i ds ≡ true
unfolding find_domain references_domain
find_domain-references name [] i h = cc
find_domain-references name (d ∷ ds) i h =
    let ih = find_domain-references name ds i in ground (arith, ==_iff d.id i)

-- The domain of an auto record, 0 if PowerDNS has none.
abbrev pub domain_of : List Domain → AutoRec → ℕ
domain_of ds r = or_zero (find_domain r.zone_name ds)

-- The record takes the place of one with the same content.
abbrev pub put : DnsRecord → List DnsRecord → List DnsRecord
put r rs = remove (same_record r) rs ++ (r ∷ [])

-- PowerDNS's records after `DeactivateAutoRecords` and after `ReactivateAutoRecords`.
unfoldable pub withdrawn : List Domain → List AutoRec → List DnsRecord → List DnsRecord
withdrawn ds [] rs = rs
withdrawn ds (x ∷ xs) rs =
    withdrawn ds xs (
      if domain_of ds x == 0 then rs else remove (in_set (domain_of ds x) x.row.name x.row.kind) rs)

unfoldable pub restored : List Domain → List AutoRec → List DnsRecord → List DnsRecord
restored ds [] rs = rs
restored ds (x ∷ xs) rs =
    restored ds xs
      (if domain_of ds x == 0 then rs else put (dns_record_of_row (domain_of ds x) x.row) rs)

-- The record that a row stands for: its name, type, content, time to live and priority, in the domain.
abbrev pub stands_for : ℕ → ZoneRecord → DnsRecord
stands_for d row = record {
  domain_id = d;
  name = row.name;
  kind = row.kind;
  content = row.content;
  ttl = row.ttl;
  prio = row.priority;
}

-- What the auto records prescribe for one domain: each of its records, put after those before it.
unfoldable pub prescribed : ℕ → List Domain → List AutoRec → List DnsRecord → List DnsRecord
prescribed d ds [] rs = rs
prescribed d ds (x ∷ xs) rs =
    prescribed d ds xs (if domain_of ds x == d then put (stands_for d x.row) rs else rs)

abbrev pub OfSet : Bytes → Bytes → AutoRec → Type 0
OfSet name kind x = (x.row.name ≡ name) × (x.row.kind ≡ kind)

join_zone-OfSet :
    {name kind : Bytes} (z : Option Zone) (r : ZoneRecord) (xs : List AutoRec)
    → (r.name ≡ name) × (r.kind ≡ kind)
    → All (OfSet name kind) xs
    → All (OfSet name kind) (join_zone z r xs)
join_zone-OfSet none r xs e h = h
join_zone-OfSet (some z) r xs e h = (e, h)

is_auto-names :
    (name kind : Bytes) (r : ZoneRecord)
    → is_auto name kind r ≡ true
    → (r.name ≡ name) × (r.kind ≡ kind)
unfolding is_auto
is_auto-names name kind r y =
    (ground (arith, bytes_eq_iff r.name name), ground (arith, bytes_eq_iff r.kind kind))

pub auto_recs-OfSet :
    (name kind : Bytes) (zs : List Zone) (rs : List ZoneRecord)
    → All (OfSet name kind) (auto_recs name kind zs rs)
unfolding auto_recs
auto_recs-OfSet name kind zs [] = tt
auto_recs-OfSet name kind zs (r ∷ rs) = elim (Bool-cases (is_auto name kind r)) [
  | inr n ↦ rw n (auto_recs-OfSet name kind zs rs)
  | inl y ↦ rw y (
      join_zone-OfSet (zone_by_id r.zone_id zs) r (auto_recs name kind zs rs)
        (is_auto-names name kind r y) (auto_recs-OfSet name kind zs rs))
]

-- The records served under a name and type in a domain.
abbrev pub served : ℕ → Bytes → Bytes → List DnsRecord → List DnsRecord
served d name kind = keep (in_set d name kind)

module _ (d : ℕ) (name kind : Bytes) (ds : List Domain) where
  pub withdrawn-nil :
      (xs : List AutoRec) (rs : List DnsRecord)
      → served d name kind rs ≡ []
      → served d name kind (withdrawn ds xs rs) ≡ []
  unfolding withdrawn remove
  withdrawn-nil [] rs h = h
  withdrawn-nil (x ∷ xs) rs h = withdrawn-nil xs _ (elim (Bool-cases (domain_of ds x == 0)) [
    | inl y ↦ rw y h
    | inr n ↦ rw n (keep-remove _ _ rs ∙ ap (remove _) h)
  ])

  -- One auto record in the domain is enough for nothing to be left.
  pub withdrawn-clears :
      (xs : List AutoRec) (rs : List DnsRecord)
      → d ≢ 0
      → All (OfSet name kind) xs
      → any (λ x. domain_of ds x == d) xs ≡ true
      → served d name kind (withdrawn ds xs rs) ≡ []
  unfolding withdrawn
  withdrawn-clears [] rs nz h e = cc
  withdrawn-clears (x ∷ xs) rs nz ((en, ek), h) e = elim (Bool-cases (domain_of ds x == d)) [
    | inr n ↦ withdrawn-clears xs _ nz h (rw n at e)
    | inl y ↦ withdrawn-nil xs _ (
        rw (en, ek, (==_iff _ d).0 y)
          (elim (Bool-cases (d == 0)) [
            | inl z ↦ absurd (nz ((==_iff d 0).0 z))
            | inr z ↦ rw z (keep-remove_self (in_set d name kind) rs)
          ]))
  ]

  other_domain :
      (c : ℕ) (r : DnsRecord)
      → (c == d) ≡ false
      → in_set d name kind r ≡ true
      → in_set c name kind r ≡ false
  unfolding in_set
  other_domain c r n h = ground (arith, ==_iff r.domain_id c, ==_iff r.domain_id d, ==_iff c d)

  remove-other :
      (c : ℕ) (rs : List DnsRecord)
      → (c == d) ≡ false
      → served d name kind (remove (in_set c name kind) rs) ≡ served d name kind rs
  unfolding keep remove
  remove-other c [] n = refl
  remove-other c (r ∷ rs) n = let ih = remove-other c rs n in ground (arith, other_domain c r n)

  -- Auto records of other domains leave the records as they are.
  pub withdrawn-other :
      (xs : List AutoRec) (rs : List DnsRecord)
      → All (OfSet name kind) xs
      → any (λ x. domain_of ds x == d) xs ≡ false
      → served d name kind (withdrawn ds xs rs) ≡ served d name kind rs
  unfolding withdrawn
  withdrawn-other [] rs h e = refl
  withdrawn-other (x ∷ xs) rs ((en, ek), h) e = elim (Bool-cases (domain_of ds x == d)) [
    | inl y ↦ absurd (cc (rw y at e))
    | inr n ↦ withdrawn-other xs _ h (rw n at e) ∙ (elim (Bool-cases (domain_of ds x == 0)) [
      | inl z ↦ rw z refl
      | inr z ↦ rw (z, en, ek) (remove-other (domain_of ds x) rs n)
    ])
  ]
