-- ===== src/Zone/Keeps.antt =====
-- What the activities on zones leave alone on every path: one rule for each way that they are put
-- together (internal/activity/dns.go).
use hosting.Common.{
  ℕ, ◌≡◌, refl, ◌∙◌, Bool, true, false, Bytes, Option, none, some, List, [], ◌∷◌, ◌++◌,
  if◌then◌else◌, Option-cases, inl, inr,
}
use hosting.Common.Result.{Result, ok, err}
use hosting.Zone.Stores.{
  ZoneRecord, Stores, Server, Outcome, done, failed, M, pure, fail, ◌>>=◌, attempt, ignore, wrap,
  query, exec, for_each,
}
use hosting.Zone.Served.{keep}
use hosting.Zone.Dropping.{is_custom}

-- The rows of custom records.
abbrev pub customs : Stores → List ZoneRecord
customs s = keep is_custom s.zone_records

abbrev pub customs_after : {A : Type 0} → Outcome A → List ZoneRecord
customs_after (done a s n) = customs s
customs_after (failed text s n) = customs s

-- However it ends, the rows of custom records are those of the start.
pub record KeepsCustom {A : Type 0} (m : M A) : Type 0 where
  pub keeps : (s : Stores) (n : ℕ) → customs_after (m s n) ≡ customs s

pub KeepsCustom-bind :
    {A B : Type 0} {m : M A} {f : A → M B}
    → KeepsCustom m
    → ((a : A) → KeepsCustom (f a))
    → KeepsCustom (m >>= f)
unfolding ◌>>=◌
KeepsCustom-bind {A} {B} {m} {f} h h' = record {
  keeps = λ s n.
      (elim (m s n)
          as (λ o.
            customs_after o ≡ customs s
            → customs_after {A = B}
                (elim o [ done a s' n' ↦ f a s' n' | failed text s' n' ↦ failed text s' n' ])
              ≡ customs s) [
                | done a s' n' ↦ λ e. (h' a).keeps s' n' ∙ e
                | failed text s' n' ↦ λ e. e
              ])
        (h.keeps s n);
}

module _ {A : Type 0} {m : M A} (h : KeepsCustom m) where
  pub KeepsCustom-wrap : (text : Bytes) → KeepsCustom (wrap text m)
  unfolding wrap
  KeepsCustom-wrap text = record {
    keeps = λ s n.
        (elim (m s n)
            as (λ o.
              customs_after o ≡ customs s
              → customs_after {A = A} (elim o [
                | done a s' n' ↦ done a s' n'
                | failed e s' n' ↦ failed (text ++ e) s' n'
              ])
                ≡ customs s) [ done a s' n' ↦ λ e. e | failed t s' n' ↦ λ e. e ])
          (h.keeps s n);
  }

  pub KeepsCustom-attempt : KeepsCustom (attempt m)
  unfolding attempt
  KeepsCustom-attempt = record {
    keeps = λ s n.
        (elim (m s n)
            as (λ o.
              customs_after o ≡ customs s
              → customs_after {A = Result A} (elim o [
                | done a s' n' ↦ done (ok a) s' n'
                | failed text s' n' ↦ done (err text) s' n'
              ])
                ≡ customs s) [ done a s' n' ↦ λ e. e | failed t s' n' ↦ λ e. e ])
          (h.keeps s n);
  }

  pub KeepsCustom-ignore : KeepsCustom (ignore m)
  unfolding ignore
  KeepsCustom-ignore = record {
    keeps = λ s n.
        (elim (m s n)
            as (λ o.
              customs_after o ≡ customs s
              → customs_after {A = Unit {0}}
                  (elim o [ done a s' n' ↦ done tt s' n' | failed text s' n' ↦ done tt s' n' ])
                ≡ customs s) [ done a s' n' ↦ λ e. e | failed t s' n' ↦ λ e. e ])
          (h.keeps s n);
  }

pub KeepsCustom-pure : {A : Type 0} (a : A) → KeepsCustom (pure a)
KeepsCustom-pure a = record { keeps = λ s n. refl }

pub KeepsCustom-fail : {A : Type 0} (text : Bytes) → KeepsCustom (fail {A = A} text)
KeepsCustom-fail text = record { keeps = λ s n. refl }

pub KeepsCustom-if :
    {A : Type 0} (b : Bool) {x y : M A}
    → KeepsCustom x
    → KeepsCustom y
    → KeepsCustom (if b then x else y)
KeepsCustom-if true h k = h
KeepsCustom-if false h k = k

pub KeepsCustom-elim :
    {A B : Type 0} (o : Option A) {x : M B} {f : A → M B}
    → KeepsCustom x
    → ((a : A) → KeepsCustom (f a))
    → KeepsCustom (elim o [ none ↦ x | some a ↦ f a ])
KeepsCustom-elim none h k = h
KeepsCustom-elim (some a) h k = k a

pub KeepsCustom-query :
    {A : Type 0} (srv : Server) (rows : Stores → A) → KeepsCustom (query srv rows)
unfolding query
KeepsCustom-query srv rows = record {
  keeps = λ s n. elim (Option-cases (srv.fault n)) [
    | inl e ↦ rw (e, query) refl
    | inr (text, e) ↦ rw (e, query) refl
  ];
}

pub KeepsCustom-exec :
    (srv : Server) (change : ℕ → Stores → Option Stores)
    → ((n : ℕ) (s s' : Stores) → change n s ≡ some s' → customs s' ≡ customs s)
    → KeepsCustom (exec srv change)
unfolding exec
KeepsCustom-exec srv change h = record {
  keeps = λ s n. elim (Option-cases (srv.fault n)) [
    | inr (text, e) ↦ rw (e, exec) refl
    | inl e ↦ elim (Option-cases (change n s)) [
      | inl c ↦ rw (e, exec, c) refl
      | inr (s', c) ↦ rw (e, exec, c) (h n s s' c)
    ]
  ];
}

pub KeepsCustom-for_each :
    {A : Type 0} (xs : List A) {f : A → M (Unit {0})}
    → ((x : A) → KeepsCustom (f x))
    → KeepsCustom (for_each xs f)
unfolding for_each
KeepsCustom-for_each [] h = KeepsCustom-pure tt
KeepsCustom-for_each (x ∷ xs) h = KeepsCustom-bind (h x) (λ _. KeepsCustom-for_each xs h)
