-- ===== src/Loop/Turns.antt =====
-- `run_agent_loop` and `_drain_queued_messages` of tau_agent/loop.py.
use Prim.Native.String.{◌++◌ as append}
use tau_prime.Prelude.{
  ℕ, zero, suc, ◌+◌, ◌/◌, ◌%◌, String, Bool, true, false, Option, none, some, List, [], ◌∷◌, ◌++◌,
  ltb, leb, if◌then◌else◌,
}
use tau_prime.Messages.{ToolCall, AssistantMessage, AgentMessage}
use tau_prime.Events.{
  QueueUpdate, role, AgentEvent, agent_start, agent_end, turn_start, turn_end, queue_update,
  message_start, message_end, error,
}
use tau_prime.Exec.{Exec, pure, exhaust, ask, ◌>>=◌, ◌>>◌, emit, extend_messages}
use tau_prime.Loop.Environment.{Environment}
use tau_prime.Loop.Tools.{poll, execute_tool_calls}
use tau_prime.Loop.Stream.{Turn, consume_stream}

abbrev pub digit_text : ℕ → String
digit_text zero = "0"
digit_text (suc zero) = "1"
digit_text (suc (suc zero)) = "2"
digit_text (suc (suc (suc zero))) = "3"
digit_text (suc (suc (suc (suc zero)))) = "4"
digit_text (suc (suc (suc (suc (suc zero))))) = "5"
digit_text (suc (suc (suc (suc (suc (suc zero)))))) = "6"
digit_text (suc (suc (suc (suc (suc (suc (suc zero))))))) = "7"
digit_text (suc (suc (suc (suc (suc (suc (suc (suc zero)))))))) = "8"
digit_text n = "9"

-- The decimal text of `n`, on fuel of at least its number of digits.
decimal_within : ℕ → ℕ → String
decimal_within zero n = ""
decimal_within (suc fuel) n =
    let rest = decimal_within fuel (n / 10) in
    if ltb n 10 then digit_text n else append rest (digit_text (n % 10))

unfoldable pub decimal : ℕ → String
unfolding decimal_within
decimal n = decimal_within (suc n) n

-- The two events for each message that was queued.
unfoldable pub queued_events : List AgentMessage → List AgentEvent
queued_events [] = []
queued_events (m ∷ ms) = message_start (role m) ∷ message_end m none ∷ queued_events ms

-- `break` out of the loop, or go on to the next turn.
pub data Next : Type 0 where
  stops continues : Next

-- `max_turns is None or turn <= max_turns`
abbrev pub may_run : Option ℕ → ℕ → Bool
may_run none turn = true
may_run (some max_turns) turn = leb turn max_turns

-- The `else` of the loop, which only a limit on the turns reaches.
unfoldable pub stopped_message : Option ℕ → String
stopped_message none = ""
stopped_message (some max_turns) =
    append "Agent loop stopped after reaching max_turns=" (decimal max_turns)

-- `max_turns is not None and max_turns < 1`
abbrev pub refuses : Option ℕ → Bool
refuses none = false
refuses (some max_turns) = ltb max_turns 1

module _ {W : Type 0} (env : Environment W) where
  unfoldable pub queue_update_events : Option (W → QueueUpdate × W) → Exec W (List AgentEvent)
  queue_update_events none = pure []
  queue_update_events (some get_queue_update) = do
    update ← ask get_queue_update
    pure (queue_update update ∷ [])

  unfoldable pub drained : List AgentMessage → Exec W (List AgentEvent)
  unfolding queue_update_events queued_events
  drained [] = pure []
  drained (m ∷ ms) = do
    extend_messages (m ∷ ms)
    more ← queue_update_events env.get_queue_update
    pure (queued_events (m ∷ ms) ++ more)

  -- `_drain_queued_messages`: the events that its caller is to yield.
  unfoldable pub drain_queued_messages :
      Option (W → List AgentMessage × W) → Exec W (List AgentEvent)
  unfolding drained
  drain_queued_messages none = pure []
  drain_queued_messages (some get_messages) = do queued ← ask get_messages; drained queued

  -- After `if queue_events:`: the events of the drain, or what comes where there are none.
  unfoldable pub or_otherwise : List AgentEvent → Exec W Next → Exec W Next
  or_otherwise [] otherwise = otherwise
  or_otherwise (e ∷ es) otherwise = do emit (e ∷ es); pure continues

  -- A turn whose assistant message asks for no tool.
  unfoldable pub answered_turn : ℕ → Exec W Next
  unfolding drain_queued_messages or_otherwise
  answered_turn turn = do
    emit (turn_end turn ∷ [])
    steering ← drain_queued_messages env.get_steering_messages
    or_otherwise steering (do
      follow_up ← drain_queued_messages env.get_follow_up_messages
      or_otherwise follow_up (pure stops))

  unfoldable pub tool_turn : ℕ → List ToolCall → Exec W Next
  unfolding drain_queued_messages
  tool_turn turn calls = do
    execute_tool_calls env calls
    emit (turn_end turn ∷ [])
    steering ← drain_queued_messages env.get_steering_messages
    emit steering
    pure continues

  -- `if assistant_message is None:`
  unfoldable pub silent_turn : ℕ → Bool → Exec W Next
  silent_turn turn saw_provider_error = do
    cancelled ← poll env
    if cancelled
        then (do emit (error "Agent run cancelled" true none ∷ turn_end turn ∷ []); pure stops)
        else if saw_provider_error
        then (do emit (turn_end turn ∷ []); pure stops)
        else (do
          emit (
              turn_end turn
              ∷ error "Provider stream ended without an assistant message" false none
              ∷ [])
          pure stops)

  unfoldable pub concluded : ℕ → Turn → Option AssistantMessage → Exec W Next
  unfolding silent_turn answered_turn tool_turn
  concluded turn t none = silent_turn turn t.saw_provider_error
  concluded turn t (some m) = elim m.tool_calls [
    | [] ↦ answered_turn turn
    | call ∷ calls ↦ tool_turn turn (call ∷ calls)
  ]

  -- The body of the `while` loop.
  unfoldable pub run_turn : ℕ → Exec W Next
  unfolding concluded
  run_turn turn = do
    cancelled ← poll env
    if cancelled then (do emit (error "Agent run cancelled" true none ∷ []); pure stops) else (do
      emit (turn_start turn ∷ [])
      t ← consume_stream env
      concluded turn t t.assistant_message)

  -- The `while … else` loop from `turn` on.
  unfoldable pub run_turns : ℕ → ℕ → Exec W Unit
  unfolding run_turn stopped_message
  run_turns zero turn = exhaust
  run_turns (suc fuel) turn =
      if may_run env.max_turns turn
      then (do
        next ← run_turn turn
        elim next as (λ _. Exec W Unit) [ continues ↦ run_turns fuel (turn + 1) | stops ↦ pure tt ])
      else emit (error (stopped_message env.max_turns) true none ∷ [])

  unfoldable pub run_agent_loop : ℕ → Exec W Unit
  unfolding run_turns
  run_agent_loop fuel = do
    emit (agent_start ∷ [])
    if refuses env.max_turns
        then emit (error "max_turns must be at least 1" false none ∷ [])
        else run_turns fuel 1
    emit (agent_end ∷ [])
