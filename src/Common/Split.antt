-- ===== src/Common/Split.antt =====
-- `split` and `join` are inverse, and the parts hold no separator.
use mathlib.Core.Path.{◌≡◌, refl, ap, ◌∙◌}
use mathlib.Core.Logic.{◌≢◌, inl, inr}
use mathlib.Core.List.{List, [], ◌∷◌, ◌++◌}
use Prim.Native.Nat.{ℕ}
use native.Mathlib.Omega.{arith}
use hosting.Common.Tests.{◌==◌, ==_iff, Bool-cases}
use hosting.Common.Lists.{All}
use hosting.Common.Text.{Bytes, join}
use hosting.Common.Ascii.{split, cons_first}

-- No byte of the text is `b`.
abbrev pub Lacks : ℕ → Bytes → Type 0
Lacks b = All (λ c. c ≢ b)

module _ (sep : ℕ) where
  pub split-ne-nil : (s : Bytes) → split sep s ≢ []
  unfolding split
  split-ne-nil [] e = cc
  split-ne-nil (c ∷ s) e = ground (arith, split-ne-nil s)

  join-cons_first :
      (c : ℕ) (ps : List Bytes)
      → ps ≢ []
      → join (sep ∷ []) (cons_first c ps) ≡ c ∷ join (sep ∷ []) ps
  join-cons_first c [] h = absurd (h refl)
  join-cons_first c (p ∷ []) h = refl
  join-cons_first c (p ∷ q ∷ ps) h = refl

  join-nil_cons : (ps : List Bytes) → ps ≢ [] → join (sep ∷ []) ([] ∷ ps) ≡ sep ∷ join (sep ∷ []) ps
  join-nil_cons [] h = absurd (h refl)
  join-nil_cons (p ∷ ps) h = refl

  pub join-split : (s : Bytes) → join (sep ∷ []) (split sep s) ≡ s
  unfolding split
  join-split [] = refl
  join-split (c ∷ s) = elim (Bool-cases (c == sep)) [
    | inl y ↦
        rw y (
          join-nil_cons (split sep s) (split-ne-nil s) ∙ ground (arith, join-split s, ==_iff c sep))
    | inr n ↦
        rw n (join-cons_first c (split sep s) (split-ne-nil s) ∙ ap (λ r. c ∷ r) (join-split s))
  ]

  All-cons_first :
      (c : ℕ) (ps : List Bytes) → c ≢ sep → All (Lacks sep) ps → All (Lacks sep) (cons_first c ps)
  All-cons_first c [] n h = ((n, tt), tt)
  All-cons_first c (p ∷ ps) n h = ((n, h.0), h.1)

  pub split-Lacks : (s : Bytes) → All (Lacks sep) (split sep s)
  unfolding split
  split-Lacks [] = (tt, tt)
  split-Lacks (c ∷ s) = elim (Bool-cases (c == sep)) [
    | inl y ↦ rw y (tt, split-Lacks s)
    | inr n ↦
        rw n (All-cons_first c (split sep s) (λ e. ground (arith, ==_iff c sep)) (split-Lacks s))
  ]

  split_part : (p : Bytes) → Lacks sep p → split sep p ≡ p ∷ []
  unfolding split
  split_part [] h = refl
  split_part (c ∷ p) h = rw (split_part p h.1) (ground (arith, h.0, ==_iff c sep))

  pub split_part_sep : (p s : Bytes) → Lacks sep p → split sep (p ++ (sep ∷ s)) ≡ p ∷ split sep s
  unfolding split
  split_part_sep [] s h = ground (arith, ==_iff sep sep)
  split_part_sep (c ∷ p) s h = rw (split_part_sep p s h.1) (ground (arith, h.0, ==_iff c sep))

  pub split-join :
      (ps : List Bytes) → ps ≢ [] → All (Lacks sep) ps → split sep (join (sep ∷ []) ps) ≡ ps
  split-join [] n h = absurd (n refl)
  split-join (p ∷ []) n h = split_part p h.0
  split-join (p ∷ q ∷ ps) n h =
      split_part_sep p (join (sep ∷ []) (q ∷ ps)) h.0
      ∙ ap (λ r. p ∷ r) (split-join (q ∷ ps) (λ e. cc) h.1)
