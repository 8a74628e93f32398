-- ===== src/Investigation/Outcomes.antt =====
-- How investigations end (internal/activity/agent.go, internal/workflow/incident_agent.go).
use mathlib.Core.Path.{subst}
use hosting.Common.{
  ℕ, zero, suc, ◌+◌, ◌≤◌, ◌≡◌, ◌⊎◌, refl, ap, ◌∙◌, inl, inr, Bool, true, false, Bytes, codes,
  is_text, Option, none, some, List, [], ◌∷◌, any, length, Bool-cases, arith,
}
use hosting.Common.Text.{bytes_eq}
use hosting.Common.Result.{Result, ok, err}
use hosting.Investigation.Turns.{
  ToolCall, Message, AdminMessage, Investigated, Conversation, Agents, Task, Turn, finished, more,
  hear, hear_one, note_final, is_terminal, after_call, outcome_after, run_tools, conclude, answer,
  choose, take_turn, turns_from, go_on, opening, investigate_incident, add_message,
}
use hosting.Investigation.Hints.{ToolCallRecord}
use hosting.Investigation.Terminal.{IsReached, IsEarned, investigate_incident-IsEarned}
use hosting.Investigation.Supervision.{supervise, unless_lost, investigate_incident_workflow}

-- A terminal tool was called.
abbrev pub IsTold : Bytes → Type 0
IsTold outcome = (outcome ≡ codes "resolved") ⊎ (outcome ≡ codes "escalated")

-- The result of at most n turns, with one of the three outcomes.
abbrev pub IsClosed : ℕ → Result Investigated → Type 0
IsClosed n (ok i) = (i.turns ≤ n) × (IsTold i.outcome ⊎ (i.outcome ≡ codes "max_turns"))
IsClosed n (err e) = Unit

hear_one-chats :
    (seen : Bool) (m : AdminMessage) (c : Conversation) → (hear_one seen m c).chats ≡ c.chats
unfolding hear_one
hear_one-chats true m c = refl
hear_one-chats false m c = refl

hear-chats : (ms : List AdminMessage) (c : Conversation) → (hear ms c).chats ≡ c.chats
unfolding hear
hear-chats [] c = refl
hear-chats (m ∷ ms) c = hear-chats ms _ ∙ hear_one-chats (any (bytes_eq m.id) c.seen) m c

note_final-chats : (text : Bytes) (c : Conversation) → (note_final text c).chats ≡ c.chats
unfolding note_final
note_final-chats [] c = refl
note_final-chats (b ∷ text) c = refl

outcome_after-IsTold :
    (name outcome : Bytes)
    → (outcome ≡ []) ⊎ IsTold outcome
    → (outcome_after name outcome ≡ []) ⊎ IsTold (outcome_after name outcome)
unfolding outcome_after
outcome_after-IsTold name outcome h = elim (Bool-cases (is_terminal name)) [
  | inr n ↦ rw n h
  | inl y ↦ elim (Bool-cases (is_text "resolve_incident" name)) [
    | inl r ↦ rw (y, r) (inr (inl refl))
    | inr e ↦ rw (y, e) (inr (inr refl))
  ]
]

supervise-escalates :
    (lost : Option Bytes) (r : Result Investigated) (calls : List ToolCallRecord)
    → IsEarned r calls
    → let w = supervise (unless_lost lost r) in
      (1 ≤ length w.escalations)
      ⊎ ((i : Investigated) × (w.result ≡ ok i) × IsReached i.outcome calls)
unfolding supervise bytes_eq
supervise-escalates (some e) r calls h = inl (omega arith)
supervise-escalates none (err e) calls h = inl (omega arith)
supervise-escalates none (ok i) calls (inl reached) = inr (i, refl, reached)
supervise-escalates none (ok i) calls (inr e) = inl (rw e (omega arith))

module _ (a : Agents) where
  run_tools-IsTold :
      (tcs : List ToolCall) (outcome : Bytes) (c : Conversation)
      → (outcome ≡ []) ⊎ IsTold outcome
      → ((run_tools a tcs outcome c).0 ≡ []) ⊎ IsTold (run_tools a tcs outcome c).0
  unfolding run_tools
  run_tools-IsTold [] outcome c h = h
  run_tools-IsTold (tc ∷ tcs) outcome c h =
      run_tools-IsTold tcs _ _ (outcome_after-IsTold tc.name outcome h)

  run_tools-chats :
      (tcs : List ToolCall) (outcome : Bytes) (c : Conversation)
      → (run_tools a tcs outcome c).1.chats ≡ c.chats
  unfolding run_tools after_call
  run_tools-chats [] outcome c = refl
  run_tools-chats (tc ∷ tcs) outcome c = run_tools-chats tcs _ _

  -- A turn calls the model once, and closes the investigation if it ends it.
  abbrev IsTurn : ℕ → ℕ → Turn → Type 0
  IsTurn turn chats (finished r c) = (c.chats ≡ chats) × IsClosed turn r
  IsTurn turn chats (more c) = c.chats ≡ chats

  module _ (t : Task) (turn : ℕ) where
    conclude-IsTurn :
        (outcome : Bytes) (c : Conversation)
        → (outcome ≡ []) ⊎ IsTold outcome
        → IsTurn turn c.chats (conclude a t turn outcome c)
    unfolding conclude
    conclude-IsTurn [] c h = refl
    conclude-IsTurn (b ∷ outcome) c (inl e) = absurd (cc)
    conclude-IsTurn (b ∷ outcome) c (inr told) = (refl, (omega arith, inl told))

    answer-IsTurn :
        (content : Bytes) (tcs : List ToolCall) (c : Conversation)
        → IsTurn turn c.chats (answer a t turn content tcs c)
    unfolding answer
    answer-IsTurn content [] c = (note_final-chats content c, (omega arith, inr refl))
    answer-IsTurn content (tc ∷ tcs) c =
        let (outcome, c') = run_tools a (tc ∷ tcs) [] c in
        subst (λ k. IsTurn turn k (conclude a t turn outcome c')) (run_tools-chats (tc ∷ tcs) [] c)
          (conclude-IsTurn outcome c' (run_tools-IsTold (tc ∷ tcs) [] c (inl refl)))

    choose-IsTurn :
        (r : Result (List Message)) (c : Conversation) → IsTurn turn c.chats (choose a t turn r c)
    unfolding choose
    choose-IsTurn (err e) c = (refl, tt)
    choose-IsTurn (ok []) c = (refl, tt)
    choose-IsTurn (ok (m ∷ ms)) c = answer-IsTurn m.content m.tool_calls (add_message m c)

    take_turn-IsTurn : (c : Conversation) → IsTurn turn (c.chats + 1) (take_turn a t turn c)
    unfolding take_turn
    take_turn-IsTurn c =
        let heard = hear (a.admin_messages turn) c in
        let next = record heard { chats = heard.chats + 1 } in
        subst (λ k. IsTurn turn (k + 1) (take_turn a t turn c))
          (hear-chats (a.admin_messages turn) c)
          (choose-IsTurn (a.chat heard.chats heard.messages) next)

  IsClosed-more : (n k : ℕ) (r : Result Investigated) → n ≤ k → IsClosed n r → IsClosed k r
  IsClosed-more n k (ok i) h (l, o) = (omega arith, o)
  IsClosed-more n k (err e) h o = tt

  turns_from-bounded :
      (t : Task) (gone left : ℕ) (c : Conversation)
      → ((turns_from a t gone left c).1.chats ≤ c.chats + left)
        × IsClosed (gone + left) (turns_from a t gone left c).0
  unfolding turns_from
  turns_from-bounded t gone zero c = (omega arith, (omega arith, inr refl))
  turns_from-bounded t gone (suc left) c =
      go (take_turn a t (gone + 1) c) (take_turn-IsTurn t (gone + 1) c)
        (λ c'. turns_from-bounded t (gone + 1) left c')
    where
      go :
          (u : Turn)
          → IsTurn (gone + 1) (c.chats + 1) u
          → ((c' : Conversation)
              → ((turns_from a t (gone + 1) left c').1.chats ≤ c'.chats + left)
                × IsClosed (gone + 1 + left) (turns_from a t (gone + 1) left c').0)
          → ((go_on (turns_from a t (gone + 1) left) u).1.chats ≤ c.chats + suc left)
            × IsClosed (gone + suc left) (go_on (turns_from a t (gone + 1) left) u).0
      go (finished r c') (e, closed) rest =
          (omega (arith, e), IsClosed-more (gone + 1) (gone + suc left) r (omega arith) closed)
      go (more c') e rest =
          let (l, closed) = rest c' in
          (
            omega (arith, e),
            IsClosed-more (gone + 1 + left) (gone + suc left) _ (omega arith) closed,
          )

  -- Whatever the model, the tools and the operators do, an investigation ends after at most the given
  -- number of calls of the model, with an error or with a result of at most so many turns, whose
  -- outcome is resolved, escalated or max_turns.
  pub investigate_incident-bounded :
      (max_turns : ℕ) (t : Task)
      → ((investigate_incident a max_turns t).1.chats ≤ max_turns)
        × IsClosed max_turns (investigate_incident a max_turns t).0
  unfolding investigate_incident opening
  investigate_incident-bounded max_turns t =
      let (l, closed) = turns_from-bounded t 0 max_turns (opening t) in
      (omega (arith, l), IsClosed-more (0 + max_turns) max_turns _ (omega arith) closed)

  -- Whatever goes wrong, the workflow hands the incident to a person by a call of EscalateIncident, or
  -- the context was assembled and the result has the outcome resolved, and the model had the tool
  -- resolve_incident called, or it has the outcome escalated, and the model had escalate_incident
  -- called.
  pub workflow-escalates :
      (max_turns : ℕ) (lost : Option Bytes) (context : Result Task)
      → let w = investigate_incident_workflow a max_turns lost context in
        (1 ≤ length w.escalations)
        ⊎ ((t : Task) × (i : Investigated) × (context ≡ ok t)
            × (w.result ≡ ok i)
            × IsReached i.outcome (investigate_incident a max_turns t).1.history)
  unfolding investigate_incident_workflow
  workflow-escalates max_turns lost (err e) = inl (omega arith)
  workflow-escalates max_turns lost (ok t) =
      let (r, c) = investigate_incident a max_turns t in
      elim (supervise-escalates lost r c.history (investigate_incident-IsEarned a t max_turns)) [
        | inl called ↦ inl called
        | inr (i, e, reached) ↦ inr (t, i, refl, e, reached)
      ]

conclude-resolved :
    (a : Agents) (t : Task) (turn : ℕ) (c : Conversation)
    → (i : Investigated) × (conclude a t turn (codes "resolved") c ≡ finished (ok i) c)
      × (i.outcome ≡ codes "resolved")
      × (i.turns ≡ turn)
unfolding conclude
conclude-resolved a t turn c = (_, refl, refl, refl)

resolves :
    (name : Bytes) → name ≡ codes "resolve_incident" → outcome_after name [] ≡ codes "resolved"
unfolding outcome_after is_terminal bytes_eq
resolves name e = rw e refl

-- An investigation whose model at once calls the tool that resolves the incident, and only that, has
-- the outcome resolved after one turn, whether or not the tool fails.
pub failed_call-resolves :
    (a : Agents) (max_turns : ℕ) (t : Task) (m : Message) (tc : ToolCall)
    → ((k : ℕ) (ms : List Message) → a.chat k ms ≡ ok (m ∷ []))
    → m.tool_calls ≡ tc ∷ []
    → tc.name ≡ codes "resolve_incident"
    → (i : Investigated) × ((investigate_incident a (suc max_turns) t).0 ≡ ok i)
      × (i.outcome ≡ codes "resolved")
      × (i.turns ≡ 1)
unfolding investigate_incident turns_from take_turn choose answer run_tools
failed_call-resolves a max_turns t m tc says calls name =
    let heard = hear (a.admin_messages 1) (opening t) in
    let asked = add_message m (record heard { chats = heard.chats + 1 }) in
    let c = (run_tools a (tc ∷ []) [] asked).1 in
    let (i, e, o, one) = conclude-resolved a t 1 c in
    let ends : take_turn a t 1 (opening t) ≡ finished (ok i) c =
      ap (λ r. choose a t 1 r (record heard { chats = heard.chats + 1 }))
        (says heard.chats heard.messages)
      ∙ ap (λ tcs. answer a t 1 m.content tcs asked) calls
      ∙ ap (λ outcome. conclude a t 1 outcome c) (resolves tc.name name)
      ∙ e in
    (i, ap (λ u. (go_on (turns_from a t 1 max_turns) u).0) ends, o, one)
