-- ===== src/Loop/Transcript.antt =====
-- On the transcript and the event stream of tau_agent/loop.py.
pub mod Rules
use tau_prime.Prelude.{
  ℕ, zero, suc, ◌+◌, ◌≡◌, refl, sym, ap, ◌∙◌, String, Bool, true, false, Option, none, some, List,
  [], ◌∷◌, ◌++◌, append-nil, append_assoc, if◌then◌else◌, arith, Bool-cases, inl, inr,
}
use tau_prime.Messages.{
  JsonObject, ToolCall, AgentToolResult, AssistantMessage, AgentMessage, assistant,
}
use tau_prime.Events.{
  ProviderEvent, ProviderUsage, QueueUpdate, AgentEvent, queue_update, message_end,
  tool_execution_end,
}
use tau_prime.Exec.{
  Outcome, returned, aborted, exhausted, Run, Exec, pure, abort, exhaust, ask, continue, ◌>>=◌,
  ◌>>◌, emit, append_message, extend_messages,
}
use tau_prime.Exec.Respects.{
  IsPreorder, Respects, Respects-pure, Respects-abort, Respects-exhaust, Respects-bind,
}
use tau_prime.Loop.Relation.{committed, committed-append}
use tau_prime.Loop.Transcript.Rules.{
  Replays, Replays-IsTurnRelation, Replays-preorder, Told, Told-pure, Told-abort, Told-exhaust,
  Told-bind, Told-if, Told-emit, Told-ask, Owes, Owes-none, Owes-emit, Owes-bind, Told-append,
}
use tau_prime.Loop.Calls.{poll-Respects, execute_tool_calls-Respects}
use tau_prime.Loop.Streams.{committed-queued, consume_stream-Respects}
use tau_prime.Loop.Environment.{
  AgentTool, Approval, answered, failed, Execution, finished, raised, StreamEnd, ended,
  ProviderStream, Environment,
}
use tau_prime.Loop.Tools.{
  tool_result_message, executed, execute_tool, approved, gated, resolved, tool_call_result,
  record_result, polled, poll, cancel_tool_calls, run_tool_call, execute_tool_calls, find_tool,
}
use tau_prime.Loop.Stream.{
  Turn, unless, whenever, tool_call_updates, response_end_events, handle, handle_all, stream_ended,
  asked_with_messages, consume_stream, fresh_turn,
}
use tau_prime.Loop.Turns.{
  Next, stops, continues, queued_events, queue_update_events, drained, drain_queued_messages,
  or_otherwise, answered_turn, tool_turn, silent_turn, concluded, run_turn, run_turns, may_run,
  refuses, run_agent_loop,
}

-- A drain returns the events that commit what it wrote, and has yielded none of them.
record Pending {W : Type 0} (str : JsonObject → String) (s : Run W)
    (o : Outcome (List AgentEvent) × Run W) : Type 0 where
  owed : List AgentEvent
  returns : o.0 ≡ returned owed
  unseen : o.1.events ≡ s.events
  ahead : o.1.messages ≡ s.messages ++ committed str owed

module _ {W : Type 0} (env : Environment W) where
  Pending-bind :
      {A : Type 0} (m : Exec W (List AgentEvent)) (f : List AgentEvent → Exec W A)
      → ((s : Run W) → Pending env.str_dict s (m s))
      → ((es : List AgentEvent) → Owes env.str_dict (committed env.str_dict es) (f es))
      → Told env.str_dict (m >>= f)
  unfolding ◌>>=◌
  Pending-bind m f p k = record {
    at = λ s. rw ((p s).returns) ((k (p s).owed).at s (m s).1 (p s).unseen (p s).ahead);
  }

  Pending-update :
      (o : Option (W → QueueUpdate × W)) (queued : List AgentEvent) (s t : Run W)
      → t.events ≡ s.events
      → t.messages ≡ s.messages ++ committed env.str_dict queued
      → Pending env.str_dict s ((queue_update_events env o >>= λ more. pure (queued ++ more)) t)
  unfolding queue_update_events ◌>>=◌
  Pending-update none queued s t e h = record {
    owed = queued ++ [];
    returns = refl;
    unseen = e;
    ahead = h ∙ ap (λ l. s.messages ++ committed env.str_dict l) (sym (append-nil queued));
  }
  Pending-update (some g) queued s t e h = record {
    owed = queued ++ queue_update (g t.world).0 ∷ [];
    returns = refl;
    unseen = e;
    ahead =
        h
        ∙ ap (◌++◌ s.messages) (
            sym (
              committed-append env.str_dict queued _ ∙ append-nil (committed env.str_dict queued)));
  }

  Pending-drained : (ms : List AgentMessage) (s : Run W) → Pending env.str_dict s (drained env ms s)
  unfolding drained ◌>>=◌ extend_messages
  Pending-drained [] s = record {
    owed = [];
    returns = refl;
    unseen = refl;
    ahead = sym (append-nil s.messages);
  }
  Pending-drained (m ∷ ms) s =
      Pending-update env.get_queue_update (queued_events (m ∷ ms)) s _ refl
        (ap (◌++◌ s.messages) (sym (committed-queued env.str_dict (m ∷ ms))))

  Pending-drain :
      (g : Option (W → List AgentMessage × W)) (s : Run W)
      → Pending env.str_dict s (drain_queued_messages env g s)
  unfolding drain_queued_messages ◌>>=◌
  Pending-drain none s = record {
    owed = [];
    returns = refl;
    unseen = refl;
    ahead = sym (append-nil s.messages);
  }
  Pending-drain (some g) s =
      let p = Pending-drained (g s.world).0 (record s { world = (g s.world).1 }) in
      record { owed = p.owed; returns = p.returns; unseen = p.unseen; ahead = p.ahead }

  Owes-or_otherwise :
      (es : List AgentEvent) (otherwise : Exec W Next)
      → Told env.str_dict otherwise
      → Owes env.str_dict (committed env.str_dict es) (or_otherwise env es otherwise)
  unfolding or_otherwise
  Owes-or_otherwise [] otherwise k = Owes-none env.str_dict otherwise k
  Owes-or_otherwise (e ∷ es) otherwise k =
      Owes-bind env.str_dict _ _ _ (Owes-emit env.str_dict _ _ refl) (λ _. Told-pure env.str_dict _)

  Told-answered_turn : (turn : ℕ) → Told env.str_dict (answered_turn env turn)
  unfolding answered_turn
  Told-answered_turn turn = Told-bind env.str_dict _ _ (Told-emit env.str_dict _ refl) λ _.
      Pending-bind _ _ (Pending-drain env.get_steering_messages) λ es. Owes-or_otherwise es _ (
        Pending-bind _ _ (Pending-drain env.get_follow_up_messages)
          λ fs. Owes-or_otherwise fs _ (Told-pure env.str_dict _))

  Told-tool_turn : (turn : ℕ) (calls : List ToolCall) → Told env.str_dict (tool_turn env turn calls)
  unfolding tool_turn
  Told-tool_turn turn calls =
      Told-bind env.str_dict _ _
        (execute_tool_calls-Respects env (Replays-IsTurnRelation env.str_dict) calls)
        λ _. Told-bind env.str_dict _ _ (Told-emit env.str_dict _ refl) λ _.
          Pending-bind _ _ (Pending-drain env.get_steering_messages) λ es.
            Owes-bind env.str_dict _ _ _ (Owes-emit env.str_dict _ es refl)
              (λ _. Told-pure env.str_dict _)

  Told-stops :
      (es : List AgentEvent)
      → committed env.str_dict es ≡ []
      → Told env.str_dict (emit {W = W} es >> pure stops)
  Told-stops es silent =
      Told-bind env.str_dict _ _ (Told-emit env.str_dict es silent) (λ _. Told-pure env.str_dict _)

  Told-silent_turn : (turn : ℕ) (b : Bool) → Told env.str_dict (silent_turn env turn b)
  unfolding silent_turn
  Told-silent_turn turn b =
      Told-bind env.str_dict _ _ (poll-Respects env (Replays-IsTurnRelation env.str_dict)) λ c.
        Told-if env.str_dict c _ _ (Told-stops _ refl)
          (Told-if env.str_dict b _ _ (Told-stops _ refl) (Told-stops _ refl))

  Told-concluded :
      (turn : ℕ) (t : Turn) (o : Option AssistantMessage)
      → Told env.str_dict (concluded env turn t o)
  unfolding concluded
  Told-concluded turn t none = Told-silent_turn turn t.saw_provider_error
  Told-concluded turn t (some m) = by_calls m.tool_calls
    where
      by_calls :
          (calls : List ToolCall)
          → Told env.str_dict (elim calls [
            | [] ↦ answered_turn env turn
            | call ∷ rest ↦ tool_turn env turn (call ∷ rest)
          ])
      by_calls [] = Told-answered_turn turn
      by_calls (call ∷ calls) = Told-tool_turn turn (call ∷ calls)

  Told-run_turn : (turn : ℕ) → Told env.str_dict (run_turn env turn)
  unfolding run_turn
  Told-run_turn turn =
      Told-bind env.str_dict _ _ (poll-Respects env (Replays-IsTurnRelation env.str_dict)) λ c.
        Told-if env.str_dict c _ _ (Told-stops _ refl) (
          Told-bind env.str_dict _ _ (Told-emit env.str_dict _ refl) λ _.
            Told-bind env.str_dict _ _
              (consume_stream-Respects env (Replays-IsTurnRelation env.str_dict))
              (λ t. Told-concluded turn t t.assistant_message))

  Told-next :
      (later : Exec W Unit)
      → Told env.str_dict later
      → (next : Next)
      → Told env.str_dict (elim next as (λ _. Exec W Unit) [ continues ↦ later | stops ↦ pure tt ])
  Told-next later k stops = Told-pure env.str_dict tt
  Told-next later k continues = k

  Told-run_turns : (fuel turn : ℕ) → Told env.str_dict (run_turns env fuel turn)
  unfolding run_turns
  Told-run_turns zero turn = Told-exhaust env.str_dict _
  Told-run_turns (suc fuel) turn =
      Told-if env.str_dict (may_run env.max_turns turn) _ _
        (Told-bind env.str_dict _ _ (Told-run_turn turn)
          (Told-next _ (Told-run_turns fuel (turn + 1))))
        (Told-emit env.str_dict _ refl)

  Told-run_agent_loop : (fuel : ℕ) → Told env.str_dict (run_agent_loop env fuel)
  unfolding run_agent_loop
  Told-run_agent_loop fuel = Told-bind env.str_dict _ _ (Told-emit env.str_dict _ refl) λ _.
      Told-bind env.str_dict _ _
        (Told-if env.str_dict (refuses env.max_turns) _ _ (Told-emit env.str_dict _ refl)
          (Told-run_turns fuel 1))
        (λ _. Told-emit env.str_dict _ refl)

  -- Whatever the provider, the tools and the queues do, and however the run ends (by itself, torn
  -- down by an exception, or cut short by the fuel), the messages that it added to the transcript
  -- are exactly those that its events committed, in order: a `message_end` commits its message, and
  -- a `tool_execution_end` the message made of its result.
  pub run_agent_loop-Replays :
      (fuel : ℕ) (s : Run W) → Replays env.str_dict s (run_agent_loop env fuel s).1
  run_agent_loop-Replays fuel s = (Told-run_agent_loop fuel).at s
