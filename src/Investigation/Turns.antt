-- ===== src/Investigation/Turns.antt =====
-- `InvestigateIncident` (internal/activity/agent.go), turn by turn, and the workflow around it
-- (`InvestigateIncidentWorkflow` of internal/workflow/incident_agent.go).
use hosting.Common.{
  ℕ, zero, suc, ◌+◌, Bool, true, false, ◌||◌, Bytes, codes, bytes_eq, is_text, Option, List, [],
  ◌∷◌, ◌++◌, any, is_empty, if◌then◌else◌,
}
use hosting.Common.Decimal.{decimal}
use hosting.Common.Result.{Result, ok, err}
use hosting.Investigation.Hints.{ToolCallRecord, truncate, line, build_resolution_hint}

pub record ToolCall : Type 0 where
  pub id : Bytes
  pub name : Bytes
  pub arguments : Bytes

pub record Message : Type 0 where
  pub role : Bytes
  pub content : Bytes
  pub tool_calls : List ToolCall
  pub tool_call_id : Bytes

pub record AdminMessage : Type 0 where
  pub id : Bytes
  pub detail : Bytes

-- An event of the incident, without its metadata. Its insertion, whose error is dropped, is taken to
-- succeed.
pub record Event : Type 0 where
  pub action : Bytes
  pub detail : Bytes

-- `InvestigateIncidentResult`
pub record Investigated : Type 0 where
  pub outcome : Bytes
  pub turns : ℕ
  pub summary : Bytes
  pub resolution_hint : Bytes

-- What one investigation has done so far. `chats` counts the calls of the model.
pub record Conversation : Type 0 where
  pub messages : List Message
  pub history : List ToolCallRecord
  pub resolve_args : Bytes
  pub seen : List Bytes
  pub events : List Event
  pub chats : ℕ

-- What is not the loop's: the model's choices, by the number of calls before and the messages; the
-- tools, by the calls before; the operators' messages that a turn reads (none after an error); the JSON of the arguments.
pub record Agents : Type 0 where
  pub chat : ℕ → List Message → Result (List Message)
  pub execute : List ToolCallRecord → ToolCall → Result Bytes
  pub admin_messages : ℕ → List AdminMessage
  pub parse_resolution : Bytes → Option Bytes

-- The parameters that the loop reads.
pub record Task : Type 0 where
  pub incident_json : Bytes
  pub system_prompt : Bytes
  pub hints : Bytes
  pub kind : Bytes
  pub title : Bytes

abbrev pub said : Bytes → Bytes → Message
said role content = record { role = role; content = content; tool_calls = []; tool_call_id = [] }

abbrev pub add_message : Message → Conversation → Conversation
add_message m c = record c { messages = c.messages ++ (m ∷ []) }

abbrev pub record_event : Bytes → Bytes → Conversation → Conversation
record_event action detail c = record c {
  events = c.events ++ (record { action = action; detail = detail } ∷ []);
}

-- A message that `fetchAdminMessages` reads, put into the conversation unless it was seen.
unfoldable pub hear_one : Bool → AdminMessage → Conversation → Conversation
hear_one true m c = c
hear_one false m c =
    record_event (codes "commented") (codes "Received admin message: " ++ truncate m.detail 100) (
      add_message
        (said (codes "user") (line (line (codes "Message from admin operator:")) ++ m.detail))
        (record c { seen = m.id ∷ c.seen }))

unfoldable pub hear : List AdminMessage → Conversation → Conversation
hear [] c = c
hear (m ∷ ms) c = hear ms (hear_one (any (bytes_eq m.id) c.seen) m c)

-- `IsTerminal`
unfoldable pub is_terminal : Bytes → Bool
is_terminal name = is_text "resolve_incident" name || is_text "escalate_incident" name

abbrev pub quoted_error : Bytes → Bytes
quoted_error e = (b'{' ∷ b'"' ∷ codes "error") ++ ((b'"' ∷ b':' ∷ b'"' ∷ e) ++ (b'"' ∷ b'}' ∷ []))

abbrev pub tool_result : Result Bytes → Bytes
tool_result (ok r) = r
tool_result (err e) = quoted_error e

-- The conversation after a call with that result.
unfoldable pub after_call : ToolCall → Bytes → Conversation → Conversation
after_call tc result c =
    record_event (codes "investigated") (codes "Called tool: " ++ tc.name) (record c {
      messages =
          c.messages
          ++ (record {
            role = codes "tool";
            content = result;
            tool_calls = [];
            tool_call_id = tc.id;
          }
              ∷ []);
      history = c.history ++ (record { name = tc.name; args = tc.arguments; result = result } ∷ []);
      resolve_args = if is_text "resolve_incident" tc.name then tc.arguments else c.resolve_args;
    })

-- The outcome after a call of that tool.
unfoldable pub outcome_after : Bytes → Bytes → Bytes
outcome_after name outcome =
    if is_terminal name
    then (if is_text "resolve_incident" name then codes "resolved" else codes "escalated")
    else outcome

-- `for _, tc := range assistantMsg.ToolCalls { ... }`
unfoldable pub run_tools : Agents → List ToolCall → Bytes → Conversation → Bytes × Conversation
run_tools a [] outcome c = (outcome, c)
run_tools a (tc ∷ tcs) outcome c =
    let result = tool_result (a.execute c.history tc) in
    run_tools a tcs (outcome_after tc.name outcome) (after_call tc result c)

-- How a turn ends: the investigation is over, or there is another turn.
pub data Turn : Type 0 where
  finished : Result Investigated → Conversation → Turn
  more : Conversation → Turn

unfoldable pub conclude : Agents → Task → ℕ → Bytes → Conversation → Turn
conclude a t turn outcome c =
    if is_empty outcome
    then more c
    else finished
        (ok (record {
          outcome = outcome;
          turns = turn;
          summary =
              codes "Investigation completed after "
              ++ (decimal turn ++ (codes " turns: " ++ outcome));
          resolution_hint =
              if is_text "resolved" outcome
              then build_resolution_hint a.parse_resolution t.kind t.title c.resolve_args c.history
              else [];
        }))
        c

unfoldable pub note_final : Bytes → Conversation → Conversation
note_final [] c = c
note_final (b ∷ text) c = record_event (codes "commented") (b ∷ text) c

-- The content and tool calls of the model's message: with no call it ends the investigation.
unfoldable pub answer : Agents → Task → ℕ → Bytes → List ToolCall → Conversation → Turn
answer a t turn content [] c =
    finished
      (ok (record {
        outcome = codes "max_turns";
        turns = turn;
        summary = content;
        resolution_hint = [];
      }))
      (note_final content c)
answer a t turn content (tc ∷ tcs) c =
    let (outcome, c') = run_tools a (tc ∷ tcs) [] c in conclude a t turn outcome c'

unfoldable pub choose : Agents → Task → ℕ → Result (List Message) → Conversation → Turn
choose a t turn (err e) c =
    finished (err (codes "llm chat turn " ++ (decimal turn ++ (codes ": " ++ e)))) c
choose a t turn (ok []) c =
    finished (err (codes "llm returned no choices on turn " ++ decimal turn)) c
choose a t turn (ok (m ∷ ms)) c = answer a t turn m.content m.tool_calls (add_message m c)

unfoldable pub take_turn : Agents → Task → ℕ → Conversation → Turn
take_turn a t turn c =
    let heard = hear (a.admin_messages turn) c in
    choose a t turn (a.chat heard.chats heard.messages) (record heard { chats = heard.chats + 1 })

-- The end of the loop, or its next round.
abbrev pub go_on :
    (Conversation → Result Investigated × Conversation) → Turn → Result Investigated × Conversation
go_on rest (finished r c) = (r, c)
go_on rest (more c) = rest c

-- `for turn := 1; turn <= a.maxTurns; turn++`: the turns done and those left.
unfoldable pub turns_from :
    Agents → Task → ℕ → ℕ → Conversation → Result Investigated × Conversation
turns_from a t gone zero c = (
  ok (record {
    outcome = codes "max_turns";
    turns = gone;
    summary = codes "Agent reached maximum investigation turns";
    resolution_hint = [];
  }),
  record_event (codes "escalated")
      (codes "Agent reached maximum investigation turns without resolution") c,
)
turns_from a t gone (suc left) c =
    go_on (turns_from a t (gone + 1) left) (take_turn a t (gone + 1) c)

unfoldable pub opening : Task → Conversation
opening t = record {
  messages =
      said (codes "system") t.system_prompt
      ∷ said (codes "user")
          (line (line (codes "Investigate the following incident:")) ++ t.incident_json)
      ∷ (if is_empty t.hints
          then []
          else said (codes "user") (
              codes "A similar incident of the same type was recently investigated and resolved. "
              ++ (codes "Use this as a starting point "
                  ++ ((226 ∷ 128 ∷ 148 ∷ line (line (codes " the same approach may apply:")))
                      ++ t.hints)))
            ∷ []);
  history = [];
  resolve_args = [];
  seen = [];
  events = [];
  chats = 0;
}

-- At most so many turns.
unfoldable pub investigate_incident : Agents → ℕ → Task → Result Investigated × Conversation
investigate_incident a max_turns t = turns_from a t 0 max_turns (opening t)
