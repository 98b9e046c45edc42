-- ===== src/Loop/Limit.antt =====
-- On the limit on the turns in tau_agent/loop.py and the fuel of the loop.
use tau_prime.Prelude.{
  ℕ, zero, suc, ◌+◌, ◌≤◌, ◌<◌, ◌≡◌, ◌≢◌, Bool, true, false, Option, none, some, List, [], ◌∷◌, leb,
  leb→le, arith, Bool-cases, inl, inr,
}
use tau_prime.Messages.{ToolCall, AgentToolResult, AssistantMessage, AgentMessage}
use tau_prime.Events.{ProviderEvent, QueueUpdate, AgentEvent}
use tau_prime.Exec.{Run, Exec, exhausted, pure}
use tau_prime.Exec.Completes.{
  Completes, completes_rules, Completes-bind, Completes-if, Completes-pure, Completes-emit,
}
use tau_prime.Loop.Environment.{
  AgentTool, Approval, answered, failed, Execution, finished, raised, StreamEnd, ended, Environment,
}
use tau_prime.Loop.Tools.{
  executed, execute_tool, approved, gated, resolved, tool_call_result, record_result, polled, poll,
  cancel_tool_calls, run_tool_call, execute_tool_calls,
}
use tau_prime.Loop.Stream.{
  Turn, handle, handle_all, stream_ended, asked_with_messages, consume_stream, fresh_turn,
}
use tau_prime.Loop.Turns.{
  Next, stops, continues, queue_update_events, drained, drain_queued_messages, or_otherwise,
  answered_turn, tool_turn, silent_turn, concluded, run_turn, run_turns, may_run, refuses,
  run_agent_loop,
}

module _ {W : Type 0} (env : Environment W) where
  Completes-executed : (call : ToolCall) (e : Execution) → Completes (executed env call e)
  unfolding executed
  Completes-executed call (finished r) = search completes_rules
  Completes-executed call (raised text) = search completes_rules
  Completes-executed call Execution.interrupted = search completes_rules

  Completes-execute_tool : (t : AgentTool) (call : ToolCall) → Completes (execute_tool env t call)
  unfolding execute_tool
  Completes-execute_tool t call = search (completes_rules, Completes-executed)

  Completes-approved :
      (t : AgentTool) (call : ToolCall) (a : Approval) → Completes (approved env t call a)
  unfolding approved
  Completes-approved t call (answered true) = Completes-execute_tool t call
  Completes-approved t call (answered false) = search completes_rules
  Completes-approved t call failed = search completes_rules
  Completes-approved t call Approval.interrupted = search completes_rules

  Completes-gated :
      (g : Option (ToolCall → AgentTool → W → Approval × W)) (t : AgentTool) (call : ToolCall)
      → Completes (gated env g t call)
  unfolding gated
  Completes-gated none t call = Completes-execute_tool t call
  Completes-gated (some approve) t call = search (completes_rules, Completes-approved)

  Completes-resolved : (o : Option AgentTool) (call : ToolCall) → Completes (resolved env o call)
  unfolding resolved
  Completes-resolved none call = search completes_rules
  Completes-resolved (some t) call = Completes-gated env.approve_tool t call

  Completes-record_result : (r : AgentToolResult) → Completes (record_result env r)
  unfolding record_result
  Completes-record_result r = search completes_rules

  Completes-polled : (o : Option (W → Bool × W)) → Completes (polled env o)
  unfolding polled
  Completes-polled none = search completes_rules
  Completes-polled (some f) = search completes_rules

  Completes-poll : Completes (poll env)
  unfolding poll
  Completes-poll = Completes-polled env.is_cancelled

  Completes-cancel_tool_calls : (calls : List ToolCall) → Completes (cancel_tool_calls env calls)
  unfolding cancel_tool_calls
  Completes-cancel_tool_calls [] = search completes_rules
  Completes-cancel_tool_calls (call ∷ calls) =
      Completes-bind _ _ (Completes-record_result _) (λ _. Completes-cancel_tool_calls calls)

  Completes-run_tool_call : (call : ToolCall) → Completes (run_tool_call env call)
  unfolding run_tool_call tool_call_result
  Completes-run_tool_call call =
      search (completes_rules, Completes-resolved, Completes-record_result)

  Completes-execute_tool_calls : (calls : List ToolCall) → Completes (execute_tool_calls env calls)
  unfolding execute_tool_calls
  Completes-execute_tool_calls [] = search completes_rules
  Completes-execute_tool_calls (call ∷ calls) = Completes-bind _ _ Completes-poll λ c.
      Completes-if c _ _ (Completes-cancel_tool_calls (call ∷ calls)) (
        Completes-bind _ _ (Completes-run_tool_call call) (λ _. Completes-execute_tool_calls calls))

  Completes-handle : (t : Turn) (e : ProviderEvent) → Completes (handle {W = W} t e)
  unfolding handle
  Completes-handle t (ProviderEvent.tool_call call) = search completes_rules
  Completes-handle t e = search completes_rules

  Completes-handle_all : (t : Turn) (es : List ProviderEvent) → Completes (handle_all {W = W} t es)
  unfolding handle_all
  Completes-handle_all t [] = search completes_rules
  Completes-handle_all t (e ∷ es) =
      Completes-bind _ _ (Completes-handle t e) (λ u. Completes-handle_all u es)

  Completes-stream_ended : (e : StreamEnd) (t : Turn) → Completes (stream_ended {W = W} e t)
  unfolding stream_ended
  Completes-stream_ended ended t = search completes_rules
  Completes-stream_ended StreamEnd.raised t = search completes_rules

  Completes-consume_stream : Completes (consume_stream env)
  unfolding consume_stream asked_with_messages
  Completes-consume_stream =
      Completes-bind _ _ (record { at = λ s e. cc })
        λ p.
          Completes-bind _ _ (Completes-handle_all fresh_turn p.events)
            (Completes-stream_ended p.ending)

  Completes-queue_update :
      (o : Option (W → QueueUpdate × W)) → Completes (queue_update_events env o)
  unfolding queue_update_events
  Completes-queue_update none = search completes_rules
  Completes-queue_update (some g) = search completes_rules

  Completes-drained : (ms : List AgentMessage) → Completes (drained env ms)
  unfolding drained
  Completes-drained [] = search completes_rules
  Completes-drained (m ∷ ms) = search (completes_rules, Completes-queue_update)

  Completes-drain :
      (g : Option (W → List AgentMessage × W)) → Completes (drain_queued_messages env g)
  unfolding drain_queued_messages
  Completes-drain none = search completes_rules
  Completes-drain (some g) = search (completes_rules, Completes-drained)

  Completes-or_otherwise :
      (es : List AgentEvent) (otherwise : Exec W Next)
      → Completes otherwise
      → Completes (or_otherwise env es otherwise)
  unfolding or_otherwise
  Completes-or_otherwise [] otherwise k = k
  Completes-or_otherwise (e ∷ es) otherwise k = search completes_rules

  Completes-answered_turn : (turn : ℕ) → Completes (answered_turn env turn)
  unfolding answered_turn
  Completes-answered_turn turn =
      search (completes_rules, Completes-drain, Completes-or_otherwise) depth 9

  Completes-tool_turn : (turn : ℕ) (calls : List ToolCall) → Completes (tool_turn env turn calls)
  unfolding tool_turn
  Completes-tool_turn turn calls =
      search (completes_rules, Completes-execute_tool_calls, Completes-drain) depth 9

  Completes-silent_turn : (turn : ℕ) (b : Bool) → Completes (silent_turn env turn b)
  unfolding silent_turn
  Completes-silent_turn turn b = search (completes_rules, Completes-poll) depth 9

  Completes-concluded :
      (turn : ℕ) (t : Turn) (o : Option AssistantMessage) → Completes (concluded env turn t o)
  unfolding concluded
  Completes-concluded turn t none = Completes-silent_turn turn t.saw_provider_error
  Completes-concluded turn t (some m) = by_calls m.tool_calls
    where
      by_calls :
          (calls : List ToolCall)
          → Completes (elim calls as (λ _. Exec W Next) [
            | [] ↦ answered_turn env turn
            | call ∷ rest ↦ tool_turn env turn (call ∷ rest)
          ])
      by_calls [] = Completes-answered_turn turn
      by_calls (call ∷ calls) = Completes-tool_turn turn (call ∷ calls)

  Completes-run_turn : (turn : ℕ) → Completes (run_turn env turn)
  unfolding run_turn
  Completes-run_turn turn =
      search (completes_rules, Completes-poll, Completes-consume_stream, Completes-concluded) depth
        9

  Completes-next :
      (rest : Exec W Unit)
      → Completes rest
      → (next : Next)
      → Completes (elim next as (λ _. Exec W Unit) [ continues ↦ rest | stops ↦ pure tt ])
  Completes-next rest k continues = k
  Completes-next rest k stops = Completes-pure tt

  Completes-run_turns :
      (fuel turn m : ℕ)
      → env.max_turns ≡ some m
      → m + 1 < turn + fuel
      → 1 ≤ fuel
      → Completes (run_turns env fuel turn)
  unfolding run_turns
  Completes-run_turns zero turn m e h k = absurd (omega arith)
  Completes-run_turns (suc fuel) turn m e h k = elim (Bool-cases (leb turn m)) [
    | inl more ↦
        Completes-if (may_run env.max_turns turn) _ _
          (Completes-bind _ _ (Completes-run_turn turn) (
            Completes-next (run_turns env fuel (turn + 1)) (
              Completes-run_turns fuel (turn + 1) m e (omega arith)
                (omega (arith, leb→le turn m more)))))
          (Completes-emit _)
    | inr full ↦ rw (e, may_run, full) (Completes-emit _)
  ]

  -- With at most `m` turns allowed, `m + 1` rounds of the loop are enough: the run returns or is
  -- torn down by an exception, whatever the environment does.
  pub run_agent_loop-Completes :
      (m fuel : ℕ)
      → env.max_turns ≡ some m
      → m < fuel
      → (s : Run W) → (run_agent_loop env fuel s).0 ≢ exhausted
  unfolding run_agent_loop
  run_agent_loop-Completes m fuel e h = Completes.at (
      Completes-bind _ _ (Completes-emit _) λ _.
        Completes-bind _ _
          (Completes-if (refuses env.max_turns) _ _ (Completes-emit _)
            (Completes-run_turns fuel 1 m e (omega arith) (omega arith)))
          (λ _. Completes-emit _))
