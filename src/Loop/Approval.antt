-- ===== src/Loop/Approval.antt =====
-- On the approval hook of tau_agent/loop.py and the tools.
use tau_prime.Prelude.{
  ℕ, zero, suc, ◌+◌, ◌≡◌, ◌≢◌, refl, ap, fun_ext, true, false, Option, none, some, List, [], ◌∷◌,
  if◌then◌else◌,
}
use tau_prime.Messages.{JsonObject, ToolCall, AssistantMessage}
use tau_prime.Events.{error}
use tau_prime.Exec.{Exec, Run, pure, ◌>>=◌, emit}
use tau_prime.Loop.Environment.{AgentTool, Approval, answered, failed, Execution, Environment}
use tau_prime.Loop.Tools.{
  approved, gated, resolved, tool_call_result, record_result, poll, polled, cancel_tool_calls,
  run_tool_call, execute_tool_calls, find_tool,
}
use tau_prime.Loop.Stream.{Turn, asked_with_messages, consume_stream}
use tau_prime.Loop.Turns.{
  Next, stops, continues, queue_update_events, drained, drain_queued_messages, or_otherwise,
  answered_turn, tool_turn, silent_turn, concluded, run_turn, run_turns, run_agent_loop, may_run,
  stopped_message,
}

module _ {W : Type 0} (env : Environment W) (approve : ToolCall → AgentTool → W → Approval × W)
    (hook : env.approve_tool ≡ some approve)
    (never : (call : ToolCall) (t : AgentTool) (w : W) → (approve call t w).0 ≢ answered true)
    (other : AgentTool → JsonObject → W → Execution × W) where
  -- The same environment, but for what the tools do.
  abbrev changed : Environment W
  changed = record env { execute = other }

  approved-changed :
      (t : AgentTool) (call : ToolCall) (a : Approval) (s : Run W)
      → a ≢ answered true
      → approved changed t call a s ≡ approved env t call a s
  unfolding approved
  approved-changed t call (answered true) s n = absurd (n refl)
  approved-changed t call (answered false) s n = refl
  approved-changed t call failed s n = refl
  approved-changed t call Approval.interrupted s n = refl

  gated-changed :
      (t : AgentTool) (call : ToolCall)
      → gated changed (some approve) t call ≡ gated env (some approve) t call
  unfolding gated ◌>>=◌
  gated-changed t call = fun_ext λ s. approved-changed t call _ _ (never call t s.world)

  resolved-changed :
      (o : Option AgentTool) (call : ToolCall) → resolved changed o call ≡ resolved env o call
  unfolding resolved
  resolved-changed none call = refl
  resolved-changed (some t) call = rw hook (gated-changed t call)

  run_tool_call-changed : (call : ToolCall) → run_tool_call changed call ≡ run_tool_call env call
  unfolding run_tool_call tool_call_result record_result
  run_tool_call-changed call = rw (resolved-changed (find_tool env.tools call.name) call)

  cancel_tool_calls-changed :
      (calls : List ToolCall) → cancel_tool_calls changed calls ≡ cancel_tool_calls env calls
  unfolding cancel_tool_calls record_result
  cancel_tool_calls-changed [] = refl
  cancel_tool_calls-changed (call ∷ calls) = rw (cancel_tool_calls-changed calls)

  execute_tool_calls-changed :
      (calls : List ToolCall) → execute_tool_calls changed calls ≡ execute_tool_calls env calls
  unfolding execute_tool_calls poll
  execute_tool_calls-changed [] = refl
  execute_tool_calls-changed (call ∷ calls) = rw (
    cancel_tool_calls-changed (call ∷ calls),
    run_tool_call-changed call,
    execute_tool_calls-changed calls,
  )

  concluded-changed :
      (turn : ℕ) (t : Turn) (o : Option AssistantMessage)
      → concluded changed turn t o ≡ concluded env turn t o
  unfolding concluded silent_turn answered_turn tool_turn drain_queued_messages drained
      queue_update_events or_otherwise poll
  concluded-changed turn t none = refl
  concluded-changed turn t (some m) = by_calls m.tool_calls
    where
      by_calls :
          (calls : List ToolCall)
          → (elim calls as (λ _. Exec W Next) [
            | [] ↦ answered_turn changed turn
            | call ∷ rest ↦ tool_turn changed turn (call ∷ rest)
          ])
            ≡ (elim calls as (λ _. Exec W Next) [
              | [] ↦ answered_turn env turn
              | call ∷ rest ↦ tool_turn env turn (call ∷ rest)
            ])
      by_calls [] = refl
      by_calls (call ∷ calls) = rw (execute_tool_calls-changed (call ∷ calls))

  run_turn-changed : (turn : ℕ) → run_turn changed turn ≡ run_turn env turn
  unfolding run_turn poll polled consume_stream asked_with_messages
  run_turn-changed turn = simp concluded-changed

  run_turns-changed : (fuel turn : ℕ) → run_turns changed fuel turn ≡ run_turns env fuel turn
  unfolding run_turns
  run_turns-changed zero turn = refl
  run_turns-changed (suc fuel) turn = rw (run_turn-changed turn) (
      ap
        (λ (rest : Exec W Unit).
          if may_run env.max_turns turn
          then run_turn env turn
            >>= (λ next. elim next as (λ _. Exec W Unit) [ continues ↦ rest | stops ↦ pure tt ])
          else emit (error (stopped_message env.max_turns) true none ∷ []))
        (run_turns-changed fuel (turn + 1)))

  -- Where the approval hook never answers yes, no tool is executed: the run, with its transcript, its
  -- events and the world after it, is the same whatever the tools would have done.
  pub run_agent_loop-changed :
      (fuel : ℕ) → run_agent_loop (record env { execute = other }) fuel ≡ run_agent_loop env fuel
  unfolding run_agent_loop
  run_agent_loop-changed fuel = rw (run_turns-changed fuel 1)
