-- ===== src/Loop/Answers.antt =====
-- On the answers of `_execute_tool_calls` of tau_agent/loop.py.
use tau_prime.Prelude.{
  ◌≡◌, refl, sym, ap, Bool, true, false, Option, none, some, List, [], ◌∷◌, ◌++◌, append-nil,
  eq_iff, arith,
}
use tau_prime.Messages.{ToolCall, AgentToolResult}
use tau_prime.Exec.{Run, Exec, ◌>>=◌, emit, append_message}
use tau_prime.Exec.Ends.{Ends, Ends-pure, Ends-abort, Ends-ask, Ends-if, Ends-bind, Ends-map}
use tau_prime.Loop.Environment.{
  AgentTool, Approval, answered, failed, Execution, finished, raised, Environment,
}
use tau_prime.Loop.Tools.{
  unknown_tool_result, denied_tool_result, cancelled_tool_result, replace_tool_call_id,
  tool_result_message, executed, execute_tool, approved, gated, resolved, tool_call_result,
  record_result, polled, poll, cancel_tool_calls, run_tool_call, execute_tool_calls, find_tool,
}
use tau_prime.Loop.Answering.{
  IsAnswered, IsPartlyAnswered, nothing_yet, then-IsAnswered, then_partly, more_left,
  IsAnswered-from, IsPartlyAnswered-from,
}

module _ {W : Type 0} (env : Environment W) where
  -- The transcript is untouched, and the result bears the call's id.
  abbrev Resolves : Run W → ToolCall → AgentToolResult → Run W → Type 0
  Resolves s call r t = (r.tool_call_id ≡ call.id) × (t.messages ≡ s.messages)

  abbrev Untouched : Run W → Run W → Type 0
  Untouched s t = t.messages ≡ s.messages

  executed-Resolves :
      (s : Run W) (call : ToolCall) (e : Execution) (t : Run W)
      → Untouched s t
      → Ends (Resolves s call) (Untouched s) (executed env call e) t
  unfolding executed replace_tool_call_id
  executed-Resolves s call (finished r) t h =
      Ends-pure _ _ _ t (ground (arith, eq_iff r.tool_call_id call.id), h)
  executed-Resolves s call (raised text) t h = Ends-pure _ _ _ t (refl, h)
  executed-Resolves s call Execution.interrupted t h = Ends-abort _ _ t h

  execute_tool-Resolves :
      (s : Run W) (t : AgentTool) (call : ToolCall) (u : Run W)
      → Untouched s u
      → Ends (Resolves s call) (Untouched s) (execute_tool env t call) u
  unfolding execute_tool
  execute_tool-Resolves s t call u h =
      Ends-bind (λ _. Untouched s) _ _ _ _ u (Ends-ask _ _ _ u h) (executed-Resolves s call)

  approved-Resolves :
      (s : Run W) (t : AgentTool) (call : ToolCall) (a : Approval) (u : Run W)
      → Untouched s u
      → Ends (Resolves s call) (Untouched s) (approved env t call a) u
  unfolding approved denied_tool_result
  approved-Resolves s t call (answered true) u h = execute_tool-Resolves s t call u h
  approved-Resolves s t call (answered false) u h = Ends-pure _ _ _ u (refl, h)
  approved-Resolves s t call failed u h = Ends-pure _ _ _ u (refl, h)
  approved-Resolves s t call Approval.interrupted u h = Ends-abort _ _ u h

  gated-Resolves :
      (s : Run W) (g : Option (ToolCall → AgentTool → W → Approval × W)) (t : AgentTool)
      (call : ToolCall) (u : Run W)
      → Untouched s u
      → Ends (Resolves s call) (Untouched s) (gated env g t call) u
  unfolding gated
  gated-Resolves s none t call u h = execute_tool-Resolves s t call u h
  gated-Resolves s (some approve) t call u h =
      Ends-bind (λ _. Untouched s) _ _ _ _ u (Ends-ask _ _ _ u h) (approved-Resolves s t call)

  resolved-Resolves :
      (s : Run W) (o : Option AgentTool) (call : ToolCall) (u : Run W)
      → Untouched s u
      → Ends (Resolves s call) (Untouched s) (resolved env o call) u
  unfolding resolved unknown_tool_result
  resolved-Resolves s none call u h = Ends-pure _ _ _ u (refl, h)
  resolved-Resolves s (some t) call u h = gated-Resolves s env.approve_tool t call u h

  record_result-Answers :
      (s : Run W) (call : ToolCall) (r : AgentToolResult) (t : Run W)
      → Resolves s call r t
      → Ends
          (λ _. IsAnswered s (call ∷ []))
          (λ u. IsPartlyAnswered s (call ∷ []) u)
          (record_result env r)
          t
  unfolding record_result tool_result_message ◌>>=◌ emit append_message
  record_result-Answers s call r t h = record {
    at = record {
      answers = tool_result_message env.str_dict r ∷ [];
      written = ap (λ l. l ++ tool_result_message env.str_dict r ∷ []) h.1;
      answer = (h.0, tt);
    };
  }

  run_tool_call-Answers :
      (s : Run W) (call : ToolCall)
      → Ends
          (λ _. IsAnswered s (call ∷ []))
          (IsPartlyAnswered s (call ∷ []))
          (run_tool_call env call)
          s
  unfolding run_tool_call tool_call_result
  run_tool_call-Answers s call =
      Ends-bind (λ _. Untouched s) _ _ _ _ s (unfold emit in record { at = refl })
        λ _ t h.
          Ends-bind (Resolves s call) _ _ _ _ t
            (Ends-map (Resolves s call) _ (Untouched s) _ _ t (λ r u k. k)
              (λ u k. nothing_yet (call ∷ []) k)
              (resolved-Resolves s (find_tool env.tools call.name) call t h))
            (record_result-Answers s call)

  -- An answer to the first call, and then what the rest does.
  Ends-then :
      (m : Exec W Unit) (s t : Run W) (call : ToolCall) (calls : List ToolCall)
      → IsAnswered s (call ∷ []) t
      → Ends (λ _. IsAnswered t calls) (IsPartlyAnswered t calls) m t
      → Ends (λ _. IsAnswered s (call ∷ calls)) (IsPartlyAnswered s (call ∷ calls)) m t
  Ends-then m s t call calls p k =
      Ends-map (λ _. IsAnswered t calls) _ (IsPartlyAnswered t calls) _ m t
        (λ _ u q. then-IsAnswered call calls p q) (λ u q. then_partly call calls p q) k

  cancel_tool_calls-Answers :
      (s : Run W) (calls : List ToolCall)
      → Ends (λ _. IsAnswered s calls) (IsPartlyAnswered s calls) (cancel_tool_calls env calls) s
  unfolding cancel_tool_calls cancelled_tool_result
  cancel_tool_calls-Answers s [] =
      unfold emit in
      record { at = record { answers = []; written = sym (append-nil s.messages); answer = tt } }
  cancel_tool_calls-Answers s (call ∷ calls) =
      Ends-bind (λ _. IsAnswered s (call ∷ [])) _ _ _ _ s
        (Ends-map _ _ (IsPartlyAnswered s (call ∷ [])) _ _ s (λ _ u k. k)
          (λ u k. more_left call calls k)
          (record_result-Answers s call (cancelled_tool_result call) s (refl, refl)))
        (λ _ t k. Ends-then _ s t call calls k (cancel_tool_calls-Answers t calls))

  poll-Untouched :
      (s : Run W) (calls : List ToolCall)
      → Ends (λ _. Untouched s) (IsPartlyAnswered s calls) (poll env) s
  unfolding poll
  poll-Untouched s calls = by_signal env.is_cancelled
    where
      by_signal :
          (o : Option (W → Bool × W))
          → Ends (λ _. Untouched s) (IsPartlyAnswered s calls) (polled env o) s
      by_signal none = unfold polled in Ends-pure _ _ _ s refl
      by_signal (some f) = unfold polled in Ends-ask _ _ f s refl

  -- When tool calls are executed, each gets exactly one tool message, in order and under its id,
  -- whether the tool ran, raised, gave a result under another id, is unknown, was refused or was
  -- cancelled; nothing else is added. If the task is torn down, a first part of the calls has been
  -- answered so.
  pub execute_tool_calls-Answers :
      (calls : List ToolCall) (s : Run W)
      → Ends (λ _. IsAnswered s calls) (IsPartlyAnswered s calls) (execute_tool_calls env calls) s
  unfolding execute_tool_calls
  execute_tool_calls-Answers [] s =
      Ends-pure _ _ tt s
        (record { answers = []; written = sym (append-nil s.messages); answer = tt })
  execute_tool_calls-Answers (call ∷ calls) s =
      Ends-bind (λ _. Untouched s) _ _ _ _ s (poll-Untouched s (call ∷ calls))
        λ c t h.
          Ends-map (λ _. IsAnswered t (call ∷ calls)) _ (IsPartlyAnswered t (call ∷ calls)) _ _ t
            (λ _ u k. IsAnswered-from (call ∷ calls) h k)
            (λ u k. IsPartlyAnswered-from (call ∷ calls) h k)
            (Ends-if _ _ c _ _ t (cancel_tool_calls-Answers t (call ∷ calls)) (
              Ends-bind (λ _. IsAnswered t (call ∷ [])) _ _ _ _ t
                (Ends-map _ _ (IsPartlyAnswered t (call ∷ [])) _ _ t (λ _ u k. k)
                  (λ u k. more_left call calls k) (run_tool_call-Answers t call))
                λ _ u k. Ends-then _ t u call calls k (execute_tool_calls-Answers calls u)))
