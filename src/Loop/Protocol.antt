-- ===== src/Loop/Protocol.antt =====
-- On the order of the events of `run_agent_loop`, in the terms of `Loop.Phases`.
mod Between
use tau_prime.Prelude.{
  ℕ, suc, ◌≤◌, ap, subst, false, Option, none, some, List, ◌++◌, leb, ltb, if◌then◌else◌, ◌⊎◌,
}
use tau_prime.Messages.{AgentMessage}
use tau_prime.Events.{
  QueueUpdate, AgentEvent, agent_start, agent_end, turn_start, turn_end, queue_update, error,
}
use tau_prime.Exec.{Run, Exec, Outcome, returned, exhaust, ask, ◌>>=◌, extend_messages}
use tau_prime.Exec.Ends.{Ends, EndsAt, Ends-ask}
use tau_prime.Loop.Environment.{Environment}
use tau_prime.Loop.Tools.{polled, poll}
use tau_prime.Loop.Turns.{
  Next, stops, continues, queued_events, queue_update_events, drained, drain_queued_messages,
  or_otherwise,
}
use tau_prime.Loop.Calls.{execute_tool_calls-Respects}
use tau_prime.Loop.Phases.{Phase, ready, over, same, advance, accepts-append, InPhase, InPhase-emit}

-- A limit on the turns is kept.
abbrev pub Within : Option ℕ → ℕ → Type 0
Within none n = Unit
Within (some max_turns) n = n ≤ max_turns

-- The loop has ended after `turns` turns, within the limit.
record IsFinished {W : Type 0} (base : List AgentEvent) (max_turns : Option ℕ) (t : Run W)
    : Type 0 where
  turns : ℕ
  limited : Within max_turns turns
  stands : InPhase base (ready turns) t

-- The run's events are those of a whole run of `turns` turns, within the limit.
pub record IsWholeRun {W : Type 0} (base : List AgentEvent) (max_turns : Option ℕ) (t : Run W)
    : Type 0 where
  pub turns : ℕ
  pub limited : Within max_turns turns
  pub stands : InPhase base (over turns) t

module _ {W : Type 0} (env : Environment W) (base : List AgentEvent) where
  -- After what was to be turn `n + 1`: it may have been cancelled before it began.
  abbrev Advanced : ℕ → Next → Run W → Type 0
  Advanced n continues t = InPhase base (ready (suc n)) t
  Advanced n stops t = InPhase base (ready n) t ⊎ InPhase base (ready (suc n)) t
