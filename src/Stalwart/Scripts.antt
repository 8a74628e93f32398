-- ===== src/Stalwart/Scripts.antt =====
-- A forward script holds exactly the rules that it was generated from (internal/stalwart/sieve.go).
use hosting.Common.{
  ◌≡◌, ◌≢◌, ◌⊎◌, refl, ap, ◌∙◌, inl, inr, Bool, true, false, Bytes, codes, none, some, List, [],
  ◌∷◌, ◌++◌, All, ◌==◌, ==_iff, Bool-cases, arith, if◌then◌else◌,
}
use hosting.Common.Text.{bytes_eq}
use hosting.Common.TextLaws.{bytes_eq_iff}
use hosting.Common.Ascii.{split}
use hosting.Common.Split.{Lacks, split_part_sep, split-ne-nil}
use hosting.Stalwart.Sieve.{
  ForwardRule, quote, newline, require_line, redirect_copy, redirect, needs_copy, rule_line,
  write_rules, generate_forward_script,
}
use hosting.Stalwart.Reader.{
  asks_for_copy, keeping, moving, after, quoted, as_rule, rule_of, read_rule, read_rules,
  read_lines, read_script,
}

-- The destination has neither a quote nor the end of a line.
abbrev pub IsPlain : ForwardRule → Type 0
IsPlain f = Lacks quote f.destination × Lacks newline f.destination

after-append : (p s : Bytes) → after p (p ++ s) ≡ some s
unfolding after
after-append [] s = refl
after-append (c ∷ p) s = rw ((==_iff c c).1 refl) (after-append p s)

quoted-append : (t : Bytes) → Lacks quote t → quoted (t ++ (quote ∷ codes ";")) ≡ some t
unfolding quoted bytes_eq
quoted-append [] h = refl
quoted-append (c ∷ t) (n, h) =
    let e : (c == quote) ≡ false = ground (arith, n, ==_iff c quote) in
    rw (e, quoted-append t h) refl

not_keeping : (s : Bytes) → after keeping (redirect ++ s) ≡ none
unfolding after
not_keeping s = refl

-- The extension was asked for if the rule uses it.
abbrev Fits : Bool → ForwardRule → Type 0
Fits asked f = (f.keep_copy ≡ false) ⊎ (asked ≡ true)

read_rule-text :
    (asked keep : Bool) (t : Bytes)
    → Lacks quote t
    → (keep ≡ false) ⊎ (asked ≡ true)
    → read_rule asked ((if keep then redirect_copy else redirect) ++ (t ++ (quote ∷ codes ";")))
      ≡ some (record { destination = t; keep_copy = keep })
unfolding read_rule
read_rule-text asked true t h (inl e) = cc
read_rule-text asked true t h (inr e) =
    let rest = t ++ (quote ∷ codes ";") in
    ap
      (λ b.
        rule_of b (after keeping (redirect_copy ++ rest)) (after moving (redirect_copy ++ rest)))
      e
    ∙ ap (λ o. rule_of true o (after moving (redirect_copy ++ rest))) (after-append keeping rest)
    ∙ ap (as_rule true) (quoted-append t h)
read_rule-text asked false t h fits =
    let rest = t ++ (quote ∷ codes ";") in
    ap (λ o. rule_of asked o (after moving (redirect ++ rest))) (not_keeping rest)
    ∙ ap (rule_of asked none) (after-append moving rest)
    ∙ ap (as_rule false) (quoted-append t h)

read_rule-line :
    (asked : Bool) (f : ForwardRule)
    → IsPlain f
    → Fits asked f
    → read_rule asked (rule_line f) ≡ some f
unfolding rule_line
read_rule-line asked f (h, _) fits = read_rule-text asked f.keep_copy f.destination h fits

Lacks-append : (s t : Bytes) → Lacks newline s → Lacks newline t → Lacks newline (s ++ t)
Lacks-append [] t h k = k
Lacks-append (c ∷ s) t (n, h) k = (n, Lacks-append s t h k)

start-Lacks : (b : Bool) → Lacks newline (if b then redirect_copy else redirect)
start-Lacks true = omega arith
start-Lacks false = omega arith

rule_line-Lacks : (f : ForwardRule) → IsPlain f → Lacks newline (rule_line f)
unfolding rule_line
rule_line-Lacks f (_, h) =
    Lacks-append _ _ (start-Lacks f.keep_copy) (Lacks-append f.destination _ h (omega arith))

module _ (asked : Bool) where
  read_rules-cons :
      (f : ForwardRule) (ls : List Bytes) (fs : List ForwardRule)
      → IsPlain f
      → Fits asked f
      → ls ≢ []
      → read_rules asked ls ≡ some fs
      → read_rules asked (rule_line f ∷ ls) ≡ some (f ∷ fs)
  unfolding read_rules
  read_rules-cons f [] fs h fits n e = absurd (n refl)
  read_rules-cons f (l ∷ ls) fs h fits n e = rw (read_rule-line asked f h fits, e) refl

  read_rules-write :
      (fs : List ForwardRule)
      → All IsPlain fs
      → All (Fits asked) fs
      → read_rules asked (split newline (write_rules fs)) ≡ some fs
  unfolding write_rules read_rules split
  read_rules-write [] h k = refl
  read_rules-write (f ∷ fs) (h, hs) (k, ks) =
      rw (split_part_sep newline (rule_line f) (write_rules fs) (rule_line-Lacks f h)) (
        read_rules-cons f (split newline (write_rules fs)) fs h k
          (split-ne-nil newline (write_rules fs)) (read_rules-write fs hs ks))

empty_script : read_lines (split newline []) ≡ some []
unfolding read_lines read_rules split bytes_eq
empty_script = refl

-- No rule's line is the line that asks for the extension.
other_line : (f : ForwardRule) → bytes_eq (rule_line f) asks_for_copy ≡ false
unfolding rule_line bytes_eq
other_line f = elim (Bool-cases f.keep_copy) [ inl y ↦ rw y refl | inr n ↦ rw n refl ]

All-Fits_asked : (fs : List ForwardRule) → All (Fits true) fs
All-Fits_asked [] = tt
All-Fits_asked (f ∷ fs) = (inr refl, All-Fits_asked fs)

All-Fits_unasked : (fs : List ForwardRule) → needs_copy fs ≡ false → All (Fits false) fs
unfolding needs_copy
All-Fits_unasked [] h = tt
All-Fits_unasked (f ∷ fs) h = (inl (ground arith), All-Fits_unasked fs (ground arith))

read_lines-rules :
    (f : ForwardRule) (fs : List ForwardRule)
    → All IsPlain (f ∷ fs)
    → All (Fits false) (f ∷ fs)
    → read_lines (split newline (write_rules (f ∷ fs))) ≡ some (f ∷ fs)
unfolding read_lines write_rules
read_lines-rules f fs (h, hs) k =
    let cut = split_part_sep newline (rule_line f) (write_rules fs) (rule_line-Lacks f h) in
    let e : read_rules false (split newline (write_rules (f ∷ fs))) ≡ some (f ∷ fs) =
      read_rules-write false (f ∷ fs) (h, hs) k in
    rw (cut, other_line f) (rw cut at e)

-- A script that is generated from rules, with no quote and no line end in a destination, is read back as
-- those rules, in their order, each with its own destination and its own choice of keeping a copy, by a
-- reader that takes `:copy` only in a script that starts by asking for that extension.
pub read_script-generate :
    (fs : List ForwardRule) → All IsPlain fs → read_script (generate_forward_script fs) ≡ some fs
unfolding read_script generate_forward_script read_lines
read_script-generate [] h = empty_script
read_script-generate (f ∷ fs) h = elim (Bool-cases (needs_copy (f ∷ fs))) [
  | inl y ↦
      rw
        (
          y,
          split_part_sep newline require_line (write_rules (f ∷ fs)) (omega arith),
          (bytes_eq_iff require_line asks_for_copy).1 refl,
        )
        (read_rules-write true (f ∷ fs) h (All-Fits_asked (f ∷ fs)))
  | inr n ↦ rw n (read_lines-rules f fs h (All-Fits_unasked (f ∷ fs) n))
]
