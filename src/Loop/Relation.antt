-- ===== src/Loop/Relation.antt =====
-- The relations between the states before and after an action that the parts of tau_agent/loop.py
-- can be checked against: what each small step of the loop must satisfy.
use tau_prime.Prelude.{◌≡◌, refl, ap, String, Bool, true, false, ◌&&◌, List, [], ◌∷◌, ◌++◌, arith}
use tau_prime.Messages.{JsonObject, AgentMessage}
use tau_prime.Events.{
  AgentEvent, agent_start, agent_end, turn_start, turn_end, message_end, tool_execution_end,
}
use tau_prime.Exec.{Run, Exec, ask, ◌>>◌, emit, append_message}
use tau_prime.Exec.Respects.{IsPreorder, Respects}
use tau_prime.Loop.Tools.{tool_result_message}

-- The messages that a listener learns of: those that an event completes, and the tool results.
abbrev pub committed : (JsonObject → String) → List AgentEvent → List AgentMessage
committed str [] = []
committed str (message_end m _ ∷ es) = m ∷ committed str es
committed str (tool_execution_end r ∷ es) = tool_result_message str r ∷ committed str es
committed str (_ ∷ es) = committed str es

pub committed-append :
    (str : JsonObject → String) (xs ys : List AgentEvent)
    → committed str (xs ++ ys) ≡ committed str xs ++ committed str ys
committed-append str [] ys = refl
committed-append str (message_end m _ ∷ es) ys = ap (◌∷◌ m) (committed-append str es ys)
committed-append str (tool_execution_end r ∷ es) ys =
    ap (◌∷◌ (tool_result_message str r)) (committed-append str es ys)
committed-append str (e ∷ es) ys = committed-append str es ys

-- No event of these opens or closes a turn or the run.
abbrev pub inner : AgentEvent → Bool
inner agent_start = false
inner agent_end = false
inner (turn_start _) = false
inner (turn_end _) = false
inner _ = true

abbrev pub all_inner : List AgentEvent → Bool
all_inner [] = true
all_inner (e ∷ es) = inner e && all_inner es

pub all_inner-append :
    (xs ys : List AgentEvent)
    → all_inner xs ≡ true
    → all_inner ys ≡ true
    → all_inner (xs ++ ys) ≡ true
all_inner-append [] ys h k = k
all_inner-append (x ∷ xs) ys h k = ground (arith, all_inner-append xs ys)

-- `R` holds across the steps that a turn is made of, between its start and its end.
pub record IsTurnRelation {W : Type 0} (str : JsonObject → String) (R : Run W → Run W → Type 0)
    : Type 1 where
  pub order : IsPreorder R
  pub asks : {A : Type 0} (f : W → A × W) → Respects R (ask f)
  pub emits :
      (es : List AgentEvent) → committed str es ≡ [] → all_inner es ≡ true → Respects R (emit es)
  -- A message is appended, and the events that follow commit it.
  pub commits :
      {A : Type 0} (m : AgentMessage) (es : List AgentEvent) (k : Exec W A)
      → committed str es ≡ m ∷ []
      → all_inner es ≡ true
      → Respects R k
      → Respects R (append_message m >> (emit es >> k))
  pub commits_last :
      (m : AgentMessage) (es : List AgentEvent)
      → committed str es ≡ m ∷ []
      → all_inner es ≡ true
      → Respects R (append_message m >> emit es)
