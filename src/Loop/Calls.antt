-- ===== src/Loop/Calls.antt =====
-- Turn relations and the actions of `Loop.Tools`.
use tau_prime.Prelude.{refl, Bool, true, false, Option, none, some, List, [], ◌∷◌}
use tau_prime.Messages.{ToolCall, AgentToolResult}
use tau_prime.Exec.{Run}
use tau_prime.Exec.Respects.{Respects, Respects-pure, Respects-abort, Respects-bind, Respects-if}
use tau_prime.Loop.Relation.{IsTurnRelation}
use tau_prime.Loop.Environment.{
  AgentTool, Approval, answered, failed, Execution, finished, raised, Environment,
}
use tau_prime.Loop.Tools.{
  executed, execute_tool, approved, gated, resolved, tool_call_result, record_result, polled, poll,
  cancel_tool_calls, run_tool_call, execute_tool_calls,
}

module _ {W : Type 0} (env : Environment W) {R : Run W → Run W → Type 0}
    (L : IsTurnRelation env.str_dict R) where
  executed-Respects : (call : ToolCall) (e : Execution) → Respects R (executed env call e)
  unfolding executed
  executed-Respects call (finished r) = Respects-pure L.order _
  executed-Respects call (raised text) = Respects-pure L.order _
  executed-Respects call Execution.interrupted = Respects-abort L.order _

  execute_tool-Respects : (t : AgentTool) (call : ToolCall) → Respects R (execute_tool env t call)
  unfolding execute_tool
  execute_tool-Respects t call = Respects-bind L.order _ _ (L.asks _) (executed-Respects call)

  approved-Respects :
      (t : AgentTool) (call : ToolCall) (a : Approval) → Respects R (approved env t call a)
  unfolding approved
  approved-Respects t call (answered true) = execute_tool-Respects t call
  approved-Respects t call (answered false) = Respects-pure L.order _
  approved-Respects t call failed = Respects-pure L.order _
  approved-Respects t call Approval.interrupted = Respects-abort L.order _

  gated-Respects :
      (g : Option (ToolCall → AgentTool → W → Approval × W)) (t : AgentTool) (call : ToolCall)
      → Respects R (gated env g t call)
  unfolding gated
  gated-Respects none t call = execute_tool-Respects t call
  gated-Respects (some approve) t call =
      Respects-bind L.order _ _ (L.asks _) (approved-Respects t call)

  resolved-Respects : (o : Option AgentTool) (call : ToolCall) → Respects R (resolved env o call)
  unfolding resolved
  resolved-Respects none call = Respects-pure L.order _
  resolved-Respects (some t) call = gated-Respects env.approve_tool t call

  record_result-Respects : (r : AgentToolResult) → Respects R (record_result env r)
  unfolding record_result
  record_result-Respects r = L.commits_last _ _ refl refl

  pub poll-Respects : Respects R (poll env)
  unfolding poll polled
  poll-Respects = by_signal env.is_cancelled
    where
      by_signal : (o : Option (W → Bool × W)) → Respects R (polled env o)
      by_signal none = Respects-pure L.order false
      by_signal (some f) = L.asks f

  cancel-Respects : (calls : List ToolCall) → Respects R (cancel_tool_calls env calls)
  unfolding cancel_tool_calls
  cancel-Respects [] = L.emits _ refl refl
  cancel-Respects (call ∷ calls) =
      Respects-bind L.order _ _ (record_result-Respects _) (λ _. cancel-Respects calls)

  run_tool_call-Respects : (call : ToolCall) → Respects R (run_tool_call env call)
  unfolding run_tool_call tool_call_result
  run_tool_call-Respects call =
      Respects-bind L.order _ _ (L.emits _ refl refl)
        λ _. Respects-bind L.order _ _ (resolved-Respects _ call) record_result-Respects

  pub execute_tool_calls-Respects :
      (calls : List ToolCall) → Respects R (execute_tool_calls env calls)
  unfolding execute_tool_calls
  execute_tool_calls-Respects [] = Respects-pure L.order tt
  execute_tool_calls-Respects (call ∷ calls) = Respects-bind L.order _ _ poll-Respects λ b.
      Respects-if b _ _ (cancel-Respects (call ∷ calls)) (
        Respects-bind L.order _ _ (run_tool_call-Respects call)
          (λ _. execute_tool_calls-Respects calls))
