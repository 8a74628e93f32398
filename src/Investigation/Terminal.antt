-- ===== src/Investigation/Terminal.antt =====
-- Which calls end an investigation (internal/activity/agent.go).
use hosting.Common.{
  ℕ, zero, suc, ◌+◌, ◌≡◌, ◌⊎◌, refl, inl, inr, Bool, true, false, String, Bytes, codes, is_text,
  List, [], ◌∷◌, ◌++◌, any, Bool-cases, arith,
}
use hosting.Common.Result.{Result, ok, err}
use hosting.Investigation.Hints.{ToolCallRecord}
use hosting.Investigation.Turns.{
  ToolCall, Message, Investigated, Conversation, Agents, Task, Turn, finished, more, hear,
  is_terminal, after_call, outcome_after, tool_result, run_tools, conclude, answer, choose,
  take_turn, turns_from, go_on, opening, investigate_incident, add_message,
}

-- A tool of that name was called.
abbrev pub IsCalled : String → List ToolCallRecord → Type 0
IsCalled tool calls = any (λ r. is_text tool r.name) calls ≡ true

-- The outcome is that of a terminal tool which was called.
abbrev pub IsReached : Bytes → List ToolCallRecord → Type 0
IsReached outcome calls =
    ((outcome ≡ codes "resolved") × IsCalled "resolve_incident" calls)
    ⊎ ((outcome ≡ codes "escalated") × IsCalled "escalate_incident" calls)

any-left : {A : Type 0} (p : A → Bool) (xs ys : List A) → any p xs ≡ true → any p (xs ++ ys) ≡ true
any-left p [] ys h = cc
any-left p (x ∷ xs) ys h = let ih = any-left p xs ys in ground arith

any-last :
    {A : Type 0} (p : A → Bool) (xs : List A) (y : A) → p y ≡ true → any p (xs ++ (y ∷ [])) ≡ true
any-last p [] y h = ground arith
any-last p (x ∷ xs) y h = let ih = any-last p xs y h in ground arith

IsReached-more :
    (outcome : Bytes) (calls more_calls : List ToolCallRecord)
    → IsReached outcome calls
    → IsReached outcome (calls ++ more_calls)
IsReached-more outcome calls more_calls (inl (e, h)) = inl (e, any-left _ calls more_calls h)
IsReached-more outcome calls more_calls (inr (e, h)) = inr (e, any-left _ calls more_calls h)

escalates :
    (name : Bytes)
    → is_terminal name ≡ true
    → is_text "resolve_incident" name ≡ false
    → is_text "escalate_incident" name ≡ true
unfolding is_terminal
escalates name y n = ground arith

-- The outcome so far: none, or one that was reached.
abbrev IsSoFar : Bytes → List ToolCallRecord → Type 0
IsSoFar outcome calls = (outcome ≡ []) ⊎ IsReached outcome calls

outcome_after-IsSoFar :
    (call : ToolCallRecord) (outcome : Bytes) (calls : List ToolCallRecord)
    → IsSoFar outcome calls
    → IsSoFar (outcome_after call.name outcome) (calls ++ (call ∷ []))
unfolding outcome_after
outcome_after-IsSoFar call outcome calls h = elim (Bool-cases (is_terminal call.name)) [
  | inr n ↦ rw n (kept h)
  | inl y ↦ elim (Bool-cases (is_text "resolve_incident" call.name)) [
    | inl r ↦
        rw (y, r) (inr (inl (refl, any-last (λ c. is_text "resolve_incident" c.name) calls call r)))
    | inr e ↦
        rw (y, e)
          (inr (
            inr (
              refl,
              any-last (λ c. is_text "escalate_incident" c.name) calls call
                  (escalates call.name y e),
            )))
  ]
]
  where
    kept : IsSoFar outcome calls → IsSoFar outcome (calls ++ (call ∷ []))
    kept (inl e) = inl e
    kept (inr r) = inr (IsReached-more outcome calls (call ∷ []) r)

-- A result is an error, one without an outcome, or one that was reached.
abbrev pub IsEarned : Result Investigated → List ToolCallRecord → Type 0
IsEarned (ok i) calls = IsReached i.outcome calls ⊎ (i.outcome ≡ codes "max_turns")
IsEarned (err e) calls = Unit

abbrev IsEarnedTurn : Turn → Type 0
IsEarnedTurn (finished r c) = IsEarned r c.history
IsEarnedTurn (more c) = Unit

module _ (a : Agents) where
  run_tools-IsSoFar :
      (tcs : List ToolCall) (outcome : Bytes) (c : Conversation)
      → IsSoFar outcome c.history
      → IsSoFar (run_tools a tcs outcome c).0 (run_tools a tcs outcome c).1.history
  unfolding run_tools after_call
  run_tools-IsSoFar [] outcome c h = h
  run_tools-IsSoFar (tc ∷ tcs) outcome c h =
      let result = tool_result (a.execute c.history tc) in
      let call : ToolCallRecord = record { name = tc.name; args = tc.arguments; result = result } in
      run_tools-IsSoFar tcs _ _ (outcome_after-IsSoFar call outcome c.history h)

  module _ (t : Task) where
    conclude-IsEarned :
        (turn : ℕ) (outcome : Bytes) (c : Conversation)
        → IsSoFar outcome c.history
        → IsEarnedTurn (conclude a t turn outcome c)
    unfolding conclude
    conclude-IsEarned turn [] c h = tt
    conclude-IsEarned turn (b ∷ outcome) c (inl e) = absurd (cc)
    conclude-IsEarned turn (b ∷ outcome) c (inr reached) = inl reached

    answer-IsEarned :
        (turn : ℕ) (content : Bytes) (tcs : List ToolCall) (c : Conversation)
        → IsEarnedTurn (answer a t turn content tcs c)
    unfolding answer
    answer-IsEarned turn content [] c = inr refl
    answer-IsEarned turn content (tc ∷ tcs) c =
        conclude-IsEarned turn _ _ (run_tools-IsSoFar (tc ∷ tcs) [] c (inl refl))

    choose-IsEarned :
        (turn : ℕ) (r : Result (List Message)) (c : Conversation)
        → IsEarnedTurn (choose a t turn r c)
    unfolding choose
    choose-IsEarned turn (err e) c = tt
    choose-IsEarned turn (ok []) c = tt
    choose-IsEarned turn (ok (m ∷ ms)) c =
        answer-IsEarned turn m.content m.tool_calls (add_message m c)

    take_turn-IsEarned : (turn : ℕ) (c : Conversation) → IsEarnedTurn (take_turn a t turn c)
    unfolding take_turn
    take_turn-IsEarned turn c =
        let heard = hear (a.admin_messages turn) c in
        choose-IsEarned turn (a.chat heard.chats heard.messages)
          (record heard { chats = heard.chats + 1 })

    go_on-IsEarned :
        (rest : Conversation → Result Investigated × Conversation) (u : Turn)
        → IsEarnedTurn u
        → ((c : Conversation) → IsEarned (rest c).0 (rest c).1.history)
        → IsEarned (go_on rest u).0 (go_on rest u).1.history
    go_on-IsEarned rest (finished r c) h k = h
    go_on-IsEarned rest (more c) h k = k c

    turns_from-IsEarned :
        (gone left : ℕ) (c : Conversation)
        → IsEarned (turns_from a t gone left c).0 (turns_from a t gone left c).1.history
    unfolding turns_from
    turns_from-IsEarned gone zero c = inr refl
    turns_from-IsEarned gone (suc left) c =
        go_on-IsEarned (turns_from a t (gone + 1) left) (take_turn a t (gone + 1) c)
          (take_turn-IsEarned (gone + 1) c) (turns_from-IsEarned (gone + 1) left)

    pub investigate_incident-IsEarned :
        (max_turns : ℕ) → let (r, c) = investigate_incident a max_turns t in IsEarned r c.history
    unfolding investigate_incident
    investigate_incident-IsEarned max_turns = turns_from-IsEarned 0 max_turns (opening t)
