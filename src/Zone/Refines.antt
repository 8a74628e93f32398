-- ===== src/Zone/Refines.antt =====
-- The activities on PowerDNS's records implement changes of record sets: what is served under a
-- domain, a name and a type (internal/activity/powerdns_db.go).
use mathlib.Core.Path.{fun_ext}
use mathlib.Core.List.{append-nil}
use hosting.Common.{
  ℕ, ◌≡◌, refl, ap, ◌∙◌, inl, inr, true, false, ◌&&◌, Bytes, bytes_eq, List, [], ◌∷◌, map, All,
  ◌==◌, ==_iff, Bool-cases, arith, if◌then◌else◌,
}
use hosting.Common.TextLaws.{bytes_eq_iff}
use hosting.Zone.Stores.{DnsRecord, Domain, Stores, Server, M, for_each, references_domain}
use hosting.Zone.PowerDns.{
  remove, in_set, same_record, set_content, write_dns_record, update_dns_record, delete_dns_record,
  delete_dns_records_by_domain,
}
use hosting.Zone.Runs.{Faultless, Runs, Runs-then, Runs-wrap, Runs-pure, Runs-exec}
use hosting.Zone.Served.{keep, keep-remove, keep-remove_self, keep-append, put, served}
use hosting.Zone.Restored.{keep-remove_disjoint}
use hosting.Zone.Custom.{write_dns_record-Runs, delete_dns_record-Runs}

-- What is served under each domain, name and type.
abbrev pub RecordSets : Type 0
RecordSets = ℕ → Bytes → Bytes → List DnsRecord

-- A call of one of the activities on records.
pub data Change : Type 0 where
  write : DnsRecord → Change
  update : DnsRecord → Change
  delete : ℕ → Bytes → Bytes → Change
  delete_domain : ℕ → Change

abbrev renew : DnsRecord → DnsRecord → DnsRecord
renew p r = record r { content = p.content; ttl = p.ttl; prio = p.prio }

-- A change, on record sets: it touches those that it names and no other.
unfoldable pub change_sets : Change → RecordSets → RecordSets
change_sets (write p) f d n k = if in_set d n k p then put p (f d n k) else f d n k
change_sets (update p) f d n k = if in_set d n k p then map (renew p) (f d n k) else f d n k
change_sets (delete e m l) f d n k =
    if d == e && (bytes_eq n m && bytes_eq k l) then [] else f d n k
change_sets (delete_domain e) f d n k = if d == e then [] else f d n k

unfoldable pub change_all : List Change → RecordSets → RecordSets
change_all [] f = f
change_all (c ∷ cs) f = change_all cs (change_sets c f)

-- The record sets of PowerDNS's table.
abbrev pub sets_of : List DnsRecord → RecordSets
sets_of rs d n k = served d n k rs

unfoldable pub perform : Server → Change → M (Unit {0})
perform srv (write p) = write_dns_record srv p
perform srv (update p) = update_dns_record srv p
perform srv (delete d n k) = delete_dns_record srv d n k
perform srv (delete_domain d) = delete_dns_records_by_domain srv d

-- A record is written to a domain that is there.
abbrev pub HasDomain : List Domain → Change → Type 0
HasDomain ds (write p) = references_domain p.domain_id ds ≡ true
HasDomain ds (update p) = Unit
HasDomain ds (delete d n k) = Unit
HasDomain ds (delete_domain d) = Unit

-- The table after a change.
unfoldable change_table : Change → List DnsRecord → List DnsRecord
change_table (write p) rs = put p rs
change_table (update p) rs = set_content p rs
change_table (delete d n k) rs = remove (in_set d n k) rs
change_table (delete_domain d) rs = remove (λ r. r.domain_id == d) rs

module _ (d : ℕ) (n k : Bytes) where
  same_key :
      (p r : DnsRecord)
      → in_set d n k p ≡ false
      → in_set d n k r ≡ true
      → in_set p.domain_id p.name p.kind r ≡ false
  unfolding in_set
  same_key p r h e = ground (
    arith,
    ==_iff r.domain_id d,
    ==_iff p.domain_id d,
    ==_iff r.domain_id p.domain_id,
    bytes_eq_iff r.name n,
    bytes_eq_iff p.name n,
    bytes_eq_iff r.name p.name,
    bytes_eq_iff r.kind k,
    bytes_eq_iff p.kind k,
    bytes_eq_iff r.kind p.kind,
  )

  put-sets :
      (p : DnsRecord) (rs : List DnsRecord)
      → served d n k (put p rs) ≡ change_sets (write p) (sets_of rs) d n k
  unfolding change_sets keep same_record
  put-sets p rs = elim (Bool-cases (in_set d n k p)) [
    | inl y ↦ rw y (
        keep-append (in_set d n k) (remove (same_record p) rs) (p ∷ [])
        ∙ rw (y, keep-remove (in_set d n k) (same_record p) rs) refl)
    | inr f ↦ rw f (
        keep-append (in_set d n k) (remove (same_record p) rs) (p ∷ [])
        ∙ rw
            (
              f,
              keep-remove_disjoint (in_set d n k) (same_record p)
                  (λ r e. rw (same_key p r f e) refl) rs,
            )
            (append-nil _))
  ]

  renew-key : (p r : DnsRecord) → in_set d n k (renew p r) ≡ in_set d n k r
  unfolding in_set
  renew-key p r = refl

  matching :
      (p r : DnsRecord)
      → in_set d n k p ≡ true
      → in_set p.domain_id p.name p.kind r ≡ in_set d n k r
  unfolding in_set
  matching p r y =
      ground (arith, ==_iff p.domain_id d, bytes_eq_iff p.name n, bytes_eq_iff p.kind k)

  update-sets :
      (p : DnsRecord) (rs : List DnsRecord)
      → served d n k (set_content p rs) ≡ change_sets (update p) (sets_of rs) d n k
  unfolding change_sets keep set_content
  update-sets p [] = ground arith
  update-sets p (r ∷ rs) =
      let ih = update-sets p rs in ground (arith, same_key p r, matching p r, renew-key p r)

  other_key :
      (e : ℕ) (m l : Bytes)
      → (d == e && (bytes_eq n m && bytes_eq k l)) ≡ false
      → (r : DnsRecord) → in_set d n k r ≡ true
      → in_set e m l r ≡ false
  unfolding in_set
  other_key e m l f r h = ground (
    arith,
    ==_iff r.domain_id d,
    ==_iff r.domain_id e,
    ==_iff d e,
    bytes_eq_iff r.name n,
    bytes_eq_iff r.name m,
    bytes_eq_iff n m,
    bytes_eq_iff r.kind k,
    bytes_eq_iff r.kind l,
    bytes_eq_iff k l,
  )

  delete-sets :
      (e : ℕ) (m l : Bytes) (rs : List DnsRecord)
      → served d n k (remove (in_set e m l) rs) ≡ change_sets (delete e m l) (sets_of rs) d n k
  unfolding change_sets
  delete-sets e m l rs = elim (Bool-cases (d == e && (bytes_eq n m && bytes_eq k l))) [
    | inl y ↦
        let a : d ≡ e = ground (arith, ==_iff d e) in
        let b : n ≡ m = ground (arith, bytes_eq_iff n m) in
        let c : k ≡ l = ground (arith, bytes_eq_iff k l) in
        rw y (rw (a, b, c) (keep-remove_self (in_set e m l) rs))
    | inr f ↦ rw f (keep-remove_disjoint (in_set d n k) (in_set e m l) (other_key e m l f) rs)
  ]

  in_domain : (r : DnsRecord) → in_set d n k r ≡ true → r.domain_id ≡ d
  unfolding in_set
  in_domain r h = ground (arith, ==_iff r.domain_id d)

  keep-nil :
      (e : ℕ) (rs : List DnsRecord)
      → (d == e) ≡ true
      → keep (in_set d n k) (remove (λ r. r.domain_id == e) rs) ≡ []
  unfolding keep remove
  keep-nil e [] y = refl
  keep-nil e (r ∷ rs) y =
      let ih = keep-nil e rs y in ground (arith, in_domain r, ==_iff r.domain_id e, ==_iff d e)

  domain-sets :
      (e : ℕ) (rs : List DnsRecord)
      → served d n k (remove (λ r. r.domain_id == e) rs)
        ≡ change_sets (delete_domain e) (sets_of rs) d n k
  unfolding change_sets
  domain-sets e rs = elim (Bool-cases (d == e)) [
    | inl y ↦ rw y (keep-nil e rs y)
    | inr f ↦ rw f (
        keep-remove_disjoint (in_set d n k) (λ r. r.domain_id == e)
          (λ r h. ground (arith, in_domain r, ==_iff r.domain_id e, ==_iff d e)) rs)
  ]

  change_table-sets :
      (c : Change) (rs : List DnsRecord)
      → served d n k (change_table c rs) ≡ change_sets c (sets_of rs) d n k
  unfolding change_table
  change_table-sets (write p) rs = put-sets p rs
  change_table-sets (update p) rs = update-sets p rs
  change_table-sets (delete e m l) rs = delete-sets e m l rs
  change_table-sets (delete_domain e) rs = domain-sets e rs

module _ (srv : Server) (quiet : Faultless srv) where
  perform-Runs :
      (c : Change) (s : Stores)
      → HasDomain s.domains c
      → Runs (perform srv c) s tt (record s { records = change_table c s.records })
  unfolding perform change_table update_dns_record delete_dns_records_by_domain
  perform-Runs (write p) s h = write_dns_record-Runs srv quiet p s h
  perform-Runs (update p) s h = Runs-wrap (Runs-exec srv quiet _ s _ (λ n. refl)) _
  perform-Runs (delete d n k) s h = delete_dns_record-Runs srv quiet d n k s
  perform-Runs (delete_domain d) s h = Runs-wrap (Runs-exec srv quiet _ s _ (λ n. refl)) _

  -- Where no statement fails and records are only written to domains that are there, any sequence of
  -- calls of the activities on records succeeds and changes what is served as the changes of record
  -- sets say, in their order.
  pub perform-refines :
      (cs : List Change) (s : Stores)
      → All (HasDomain s.domains) cs
      → (s' : Stores) × Runs (for_each cs (perform srv)) s tt s'
        × (sets_of s'.records ≡ change_all cs (sets_of s.records))
  unfolding for_each change_all
  perform-refines [] s h = (s, Runs-pure tt s, refl)
  perform-refines (c ∷ cs) s (h, hs) =
      let next = record s { records = change_table c s.records } in
      let (s', runs, e) = perform-refines cs next hs in
      (
        s',
        Runs-then (perform-Runs c s h) runs,
        e
            ∙ ap (change_all cs)
                (fun_ext λ d. fun_ext λ n. fun_ext λ k. change_table-sets d n k c s.records),
      )
