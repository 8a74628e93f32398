-- ===== src/Stalwart/Reader.antt =====
-- A reader of forward scripts as Sieve has them (RFC 5228 and, for `:copy`, RFC 3894), for checking what
-- internal/stalwart/sieve.go writes. It has its own spelling of the commands, and it refuses `:copy` in
-- a script that does not start by asking for the extension.
use hosting.Common.{
  Bool, true, false, Bytes, codes, bytes_eq, Option, none, some, List, [], ◌∷◌, ◌++◌, is_empty,
  if◌then◌else◌, ◌==◌,
}
use hosting.Common.Ascii.{split}
use hosting.Stalwart.Sieve.{ForwardRule}

-- `require ["copy"];`
abbrev pub asks_for_copy : Bytes
asks_for_copy = codes "require [" ++ (b'"' ∷ codes "copy" ++ (b'"' ∷ codes "];"))

-- `redirect :copy "`, the start of a redirection that keeps the message
abbrev pub keeping : Bytes
keeping = codes "redirect :copy " ++ (b'"' ∷ [])

-- `redirect "`, the start of one that does not
abbrev pub moving : Bytes
moving = codes "redirect " ++ (b'"' ∷ [])

-- The text after a prefix.
unfoldable pub after : Bytes → Bytes → Option Bytes
after [] s = some s
after (c ∷ p) [] = none
after (c ∷ p) (d ∷ s) = let rest = after p s in if c == d then rest else none

-- The string up to the quote, if a semicolon and nothing else follows it.
unfoldable pub quoted : Bytes → Option Bytes
quoted [] = none
quoted (c ∷ s) =
    let rest = quoted s in
    if c == b'"'
    then (if bytes_eq s (codes ";") then some [] else none)
    else (elim rest [ none ↦ none | some t ↦ some (c ∷ t) ])

abbrev pub as_rule : Bool → Option Bytes → Option ForwardRule
as_rule keep none = none
as_rule keep (some t) = some (record { destination = t; keep_copy = keep })

-- By whether the extension was asked for, and by what follows each of the two starts.
abbrev pub rule_of : Bool → Option Bytes → Option Bytes → Option ForwardRule
rule_of true (some s) o = as_rule true (quoted s)
rule_of false (some s) o = none
rule_of asked none (some s) = as_rule false (quoted s)
rule_of asked none none = none

unfoldable pub read_rule : Bool → Bytes → Option ForwardRule
read_rule asked line = rule_of asked (after keeping line) (after moving line)

abbrev pub add_rule : Option ForwardRule → Option (List ForwardRule) → Option (List ForwardRule)
add_rule (some f) (some fs) = some (f ∷ fs)
add_rule (some f) none = none
add_rule none o = none

-- The lines of the rules; the last line is empty.
unfoldable pub read_rules : Bool → List Bytes → Option (List ForwardRule)
read_rules asked [] = none
read_rules asked (l ∷ []) = if is_empty l then some [] else none
read_rules asked (l ∷ m ∷ ls) = add_rule (read_rule asked l) (read_rules asked (m ∷ ls))

unfoldable pub read_lines : List Bytes → Option (List ForwardRule)
read_lines [] = none
read_lines (l ∷ ls) =
    if bytes_eq l asks_for_copy then read_rules true ls else read_rules false (l ∷ ls)

unfoldable pub read_script : Bytes → Option (List ForwardRule)
read_script s = read_lines (split 10 s)
