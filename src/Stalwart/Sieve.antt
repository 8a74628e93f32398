-- ===== src/Stalwart/Sieve.antt =====
-- `GenerateForwardScript` (internal/stalwart/sieve.go).
use hosting.Common.{ℕ, Bool, Bytes, codes, List, [], ◌∷◌, ◌++◌, any, if◌then◌else◌}

-- `ForwardRule`
pub record ForwardRule : Type 0 where
  pub destination : Bytes
  pub keep_copy : Bool

abbrev pub quote : ℕ
quote = b'"'

-- The end of a line.
abbrev pub newline : ℕ
newline = 10

abbrev pub require_line : Bytes
require_line = codes "require [" ++ (quote ∷ (codes "copy" ++ (quote ∷ codes "];")))

abbrev pub redirect_copy : Bytes
redirect_copy = codes "redirect :copy " ++ (quote ∷ [])

abbrev pub redirect : Bytes
redirect = codes "redirect " ++ (quote ∷ [])

unfoldable pub needs_copy : List ForwardRule → Bool
needs_copy fs = any (λ f. f.keep_copy) fs

-- A rule's line, without its end.
unfoldable pub rule_line : ForwardRule → Bytes
rule_line f =
    (if f.keep_copy then redirect_copy else redirect) ++ (f.destination ++ (quote ∷ codes ";"))

unfoldable pub write_rules : List ForwardRule → Bytes
write_rules [] = []
write_rules (f ∷ fs) = rule_line f ++ (newline ∷ write_rules fs)

unfoldable pub generate_forward_script : List ForwardRule → Bytes
generate_forward_script [] = []
generate_forward_script (f ∷ fs) =
    let rules = write_rules (f ∷ fs) in
    if needs_copy (f ∷ fs) then require_line ++ (newline ∷ rules) else rules
