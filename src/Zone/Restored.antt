-- ===== src/Zone/Restored.antt =====
-- What `ReactivateAutoRecords` makes PowerDNS serve (internal/activity/dns.go).
use hosting.Common.{
  ℕ, ◌≡◌, ◌≢◌, refl, ap, ◌∙◌, inl, inr, Bool, true, false, Bytes, List, [], ◌∷◌, ◌==◌, ==_iff,
  Bool-cases, arith, All,
}
use mathlib.Core.List.{append-nil}
use hosting.Common.TextLaws.{bytes_eq_iff}
use hosting.Zone.Stores.{Domain, DnsRecord}
use hosting.Zone.PowerDns.{remove, in_set, same_record}
use hosting.Zone.Override.{AutoRec, dns_record_of_row}
use hosting.Zone.Served.{
  keep, keep-remove, keep-append, domain_of, put, restored, prescribed, OfSet, served,
}

pub keep-remove_disjoint :
    {A : Type 0} (p q : A → Bool)
    → ((x : A) → p x ≡ true → q x ≡ false)
    → (xs : List A) → keep p (remove q xs) ≡ keep p xs
unfolding keep remove
keep-remove_disjoint p q h [] = refl
keep-remove_disjoint p q h (x ∷ xs) = let ih = keep-remove_disjoint p q h xs in ground (arith, h x)

module _ (d : ℕ) (name kind : Bytes) (ds : List Domain) where
  -- A record of the set, put among the records, is put among those that are served.
  pub served-put :
      (p : DnsRecord) (rs : List DnsRecord)
      → in_set d name kind p ≡ true
      → served d name kind (put p rs) ≡ put p (served d name kind rs)
  unfolding keep
  served-put p rs e =
      keep-append (in_set d name kind) (remove (same_record p) rs) (p ∷ [])
      ∙ rw (e, keep-remove (in_set d name kind) (same_record p) rs) refl

  disjoint :
      (p : DnsRecord)
      → (p.domain_id == d) ≡ false
      → (r : DnsRecord) → in_set d name kind r ≡ true
      → same_record p r ≡ false
  unfolding same_record
  disjoint p n r h =
      ground (arith, ==_iff r.domain_id p.domain_id, ==_iff r.domain_id d, ==_iff p.domain_id d)

  -- A record of another domain changes nothing.
  served-put_other :
      (p : DnsRecord) (rs : List DnsRecord)
      → (p.domain_id == d) ≡ false
      → served d name kind (put p rs) ≡ served d name kind rs
  unfolding keep in_set
  served-put_other p rs n =
      keep-append (in_set d name kind) (remove (same_record p) rs) (p ∷ [])
      ∙ rw (n, keep-remove_disjoint (in_set d name kind) (same_record p) (disjoint p n) rs)
          (append-nil _)

  in_set-row :
      (x : AutoRec) → OfSet name kind x → in_set d name kind (dns_record_of_row d x.row) ≡ true
  unfolding in_set
  in_set-row x (en, ek) =
      ground (arith, ==_iff d d, bytes_eq_iff x.row.name name, bytes_eq_iff x.row.kind kind)

  pub restored-prescribed :
      (xs : List AutoRec) (rs : List DnsRecord)
      → d ≢ 0
      → All (OfSet name kind) xs
      → served d name kind (restored ds xs rs) ≡ prescribed d ds xs (served d name kind rs)
  unfolding restored prescribed
  restored-prescribed [] rs nz h = refl
  restored-prescribed (x ∷ xs) rs nz (o, h) =
      restored-prescribed xs _ nz h
      ∙ ap (prescribed d ds xs) (elim (Bool-cases (domain_of ds x == d)) [
        | inl y ↦
            let e = (==_iff (domain_of ds x) d).0 y in
            rw e (elim (Bool-cases (d == 0)) [
              | inl z ↦ absurd (nz ((==_iff d 0).0 z))
              | inr z ↦ rw (z, (==_iff d d).1 refl) (served-put _ rs (in_set-row x o))
            ])
        | inr n ↦ rw n (elim (Bool-cases (domain_of ds x == 0)) [
          | inl z ↦ rw z refl
          | inr z ↦ rw z (served-put_other _ rs n)
        ])
      ])
