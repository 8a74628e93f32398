-- ===== src/Investigation/Hints.antt =====
-- What an investigation remembers, and the hint that it leaves for similar incidents
-- (`buildResolutionHint` and `truncate` of internal/activity/agent.go).
use hosting.Common.{
  ℕ, ◌+◌, ◌-◌, Bytes, codes, Option, none, some, List, [], ◌∷◌, ◌++◌, length, take, is_empty, leb,
  if◌then◌else◌,
}
use hosting.Common.Decimal.{decimal}

-- `toolCallRecord`
pub record ToolCallRecord : Type 0 where
  pub name : Bytes
  pub args : Bytes
  pub result : Bytes

unfoldable pub truncate : Bytes → ℕ → Bytes
truncate s max_len = if leb (length s) max_len then s else take max_len s ++ codes "..."

abbrev pub line : Bytes → Bytes
line s = s ++ (10 ∷ [])

-- The steps from the i-th on, of a history of so many.
unfoldable pub hint_steps : ℕ → ℕ → List ToolCallRecord → Bytes
hint_steps all i [] = []
hint_steps all i (tc ∷ tcs) =
    let rest = hint_steps all (i + 1) tcs in
    if leb 10 i
    then line (codes "... and " ++ (decimal (all - 10) ++ codes " more steps"))
    else line (
        codes "  "
        ++ (decimal (i + 1)
            ++ (codes ". " ++ (tc.name ++ (codes "(" ++ (truncate tc.args 120 ++ codes ")"))))))
      ++ rest

-- `parse` gives the field resolution of the arguments' JSON.
unfoldable pub resolution_of : (Bytes → Option Bytes) → Bytes → Bytes
resolution_of parse args =
    if is_empty args then [] else (elim (parse args) [ none ↦ [] | some r ↦ r ])

unfoldable pub build_resolution_hint :
    (Bytes → Option Bytes) → Bytes → Bytes → Bytes → List ToolCallRecord → Bytes
build_resolution_hint parse kind title resolve_args history =
    let resolution = resolution_of parse resolve_args in
    line (codes "Incident type: " ++ kind)
    ++ (line (codes "Title: " ++ title)
        ++ ((if is_empty resolution then [] else line (codes "Resolution: " ++ resolution))
            ++ ((10 ∷ line (codes "Investigation steps taken:"))
                ++ hint_steps (length history) 0 history)))
