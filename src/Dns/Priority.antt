-- ===== src/Dns/Priority.antt =====
-- What `validateRecordPriority` accepts.
use text.Mathlib.TextEquality.{eq_iff}
use hosting.Common.{
  ℕ, ◌≤◌, ◌≡◌, ◌≢◌, refl, ◌↔◌, ◌⊎◌, inl, inr, true, false, Option, none, some, String, arith,
  Bool-cases,
}
use hosting.Common.Int.{ℤ, pos, negsuc, between}
use hosting.Dns.Record.{wants_priority, takes_priority, validate_record_priority}

abbrev pub IsU16 : ℤ → Type 0
IsU16 n = (k : ℕ) × (n ≡ pos k) × (k ≤ 65535)

pub between_iff : (n : ℤ) → (between 0 65535 n ≡ true) ↔ IsU16 n
unfolding between
between_iff (pos k) =
    (λ h. (k, refl, ground arith), λ (j, e, le). let p : j ≡ k = ground arith in ground arith)
between_iff (negsuc k) = (λ h. cc, λ (j, e, le). cc)

wants_priority_iff : (t : String) → (wants_priority t ≡ true) ↔ ((t ≡ "MX") ⊎ (t ≡ "SRV"))
wants_priority_iff t = (λ h. ground (arith, eq_iff t "MX", eq_iff t "SRV"), back)
  where
    back : (t ≡ "MX") ⊎ (t ≡ "SRV") → wants_priority t ≡ true
    back (inl e) = rw ((eq_iff t "MX").1 e)
    back (inr e) = ground (arith, eq_iff t "MX", eq_iff t "SRV")

takes_priority_iff : (t : String) → (takes_priority t ≡ true) ↔ ((t ≡ "HTTPS") ⊎ (t ≡ "SVCB"))
takes_priority_iff t = (λ h. ground (arith, eq_iff t "HTTPS", eq_iff t "SVCB"), back)
  where
    back : (t ≡ "HTTPS") ⊎ (t ≡ "SVCB") → takes_priority t ≡ true
    back (inl e) = rw ((eq_iff t "HTTPS").1 e)
    back (inr e) = ground (arith, eq_iff t "HTTPS", eq_iff t "SVCB")

-- What the type asks of the priority.
pub data FitsPriority (t : String) : Option ℤ → Type 0 where
  needed : (n : ℤ) → (t ≡ "MX") ⊎ (t ≡ "SRV") → IsU16 n → FitsPriority t (some n)
  given : (n : ℤ) → (t ≡ "HTTPS") ⊎ (t ≡ "SVCB") → IsU16 n → FitsPriority t (some n)
  left_out : t ≢ "MX" → t ≢ "SRV" → FitsPriority t none

not_both : (t : String) → takes_priority t ≡ true → wants_priority t ≡ false
not_both t h = elim ((takes_priority_iff t).0 h) [ inl e ↦ rw e refl | inr e ↦ rw e refl ]

priority_sound :
    (t : String) (p : Option ℤ) → validate_record_priority t p ≡ none → FitsPriority t p
unfolding validate_record_priority
priority_sound t none h =
    left_out (λ e. ground (arith, (wants_priority_iff t).1 (inl e)))
      (λ e. ground (arith, (wants_priority_iff t).1 (inr e)))
priority_sound t (some n) h = elim (Bool-cases (wants_priority t)) [
  | inl y ↦ needed n ((wants_priority_iff t).0 y) ((between_iff n).0 (ground arith))
  | inr n₀ ↦ elim (Bool-cases (takes_priority t)) [
    | inl y ↦ given n ((takes_priority_iff t).0 y) ((between_iff n).0 (ground arith))
    | inr n₁ ↦ absurd (ground arith)
  ]
]

priority_complete :
    (t : String) (p : Option ℤ) → FitsPriority t p → validate_record_priority t p ≡ none
unfolding validate_record_priority
priority_complete t (some n) (needed _ e u) =
    rw ((wants_priority_iff t).1 e, (between_iff n).1 u) refl
priority_complete t (some n) (given _ e u) =
    rw (not_both t ((takes_priority_iff t).1 e), (takes_priority_iff t).1 e, (between_iff n).1 u)
      refl
priority_complete t none (left_out m s) = elim (Bool-cases (wants_priority t)) [
  | inl y ↦ absurd (elim ((wants_priority_iff t).0 y) [ inl e ↦ m e | inr e ↦ s e ])
  | inr n₀ ↦ rw n₀ (ground arith)
]

-- A priority passes exactly if it is there, for MX, SRV, HTTPS or SVCB, as a number from 0 to 65535,
-- or if it is left out, for a type that is neither MX nor SRV.
pub validate_record_priority_iff :
    (t : String) (p : Option ℤ) → (validate_record_priority t p ≡ none) ↔ FitsPriority t p
validate_record_priority_iff t p = (priority_sound t p, priority_complete t p)
