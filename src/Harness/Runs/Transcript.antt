-- ===== src/Harness/Runs/Transcript.antt =====
-- What a run of `AgentHarness` leaves behind.
use tau_prime.Prelude.{
  ℕ, suc, ◌≡◌, refl, sym, ap, ◌∙◌, false, Option, none, some, List, ◌++◌, append_assoc, Bool, true,
  if◌then◌else◌,
}
use tau_prime.Messages.{UserMessage, AgentMessage}
use tau_prime.Events.{AgentEvent}
use tau_prime.Exec.{Outcome, Run}
use tau_prime.Loop.Relation.{committed, committed-append}
use tau_prime.Loop.Turns.{run_agent_loop}
use tau_prime.Loop.Transcript.{run_agent_loop-Replays}
use tau_prime.Loop.Transcript.Rules.{Replays}
use tau_prime.Harness.Repair.{repaired}
use tau_prime.Harness.Repair.Complete.{AllAnswered, repaired-AllAnswered}
use tau_prime.Harness.Runs.{
  Control, Config, Harness, loop_environment, activate_run, finish_run, prompt_events,
  prompt_messages, run_start, ran, run, attempt,
}

module _ {O : Type 0} (c : Config O) where
  -- The transcript that the events of a run tell: they continue the repaired transcript from before.
  abbrev pub told : Harness O → List AgentEvent → List AgentMessage
  told h events = repaired h.messages ++ committed c.str_dict events

  -- The transcript after the run: what its events tell, and, where it was cancelled, that repaired.
  abbrev pub left : Bool → Harness O → List AgentEvent → List AgentMessage
  left cancelled h events = if cancelled then repaired (told h events) else told h events

  -- The harness after a run that began at `h`, yielded these events and left the flag of its token
  -- at `cancelled`.
  pub record IsSettled (h : Harness O) (events : List AgentEvent) (cancelled : Bool)
      (after : Harness O) : Type 0 where
    pub stopped : after.running ≡ false
    pub no_token : after.active_run_token ≡ none
    pub no_signal : after.current_signal ≡ none
    pub fresh_token : after.next_run_token ≡ suc h.next_run_token
    pub transcript : after.messages ≡ left cancelled h events
    pub answered : cancelled ≡ true → AllAnswered after.messages

  committed-prompt :
      (prompt : Option UserMessage)
      → committed c.str_dict (prompt_events prompt) ≡ prompt_messages prompt
  committed-prompt none = refl
  committed-prompt (some m) = refl

  -- What the loop adds to a run's start, told from before the prompt's message was appended.
  told_by_loop :
      (h : Harness O) (prompt : Option UserMessage) (t : Run (Control O))
      → Replays c.str_dict
          (run_start (record h { messages = repaired h.messages ++ prompt_messages prompt }) prompt)
          t
      → t.messages ≡ told h t.events
  told_by_loop h prompt t p =
      p.written
      ∙ append_assoc (repaired h.messages) (prompt_messages prompt) (committed c.str_dict p.added)
      ∙ ap (◌++◌ (repaired h.messages)) (
          sym (
            ap (committed c.str_dict) p.yielded
            ∙ committed-append c.str_dict (prompt_events prompt) p.added
            ∙ ap (λ l. l ++ committed c.str_dict p.added) (committed-prompt prompt)))

  finish_run-IsSettled :
      (h before : Harness O) (t : Run (Control O))
      → before.next_run_token ≡ suc h.next_run_token
      → t.messages ≡ told h t.events
      → IsSettled h t.events t.world.cancelled (finish_run before t)
  unfolding finish_run
  finish_run-IsSettled h before t fresh tells = record {
    stopped = refl;
    no_token = refl;
    no_signal = refl;
    fresh_token = fresh;
    transcript = ap (λ l. if t.world.cancelled then repaired l else l) tells;
    answered = λ stop. rw stop (repaired-AllAnswered t.messages);
  }

  -- Where the loop of the run starts: the repaired transcript with the prompt's message, the events
  -- that announce it, the queues as they are, and a token that is not cancelled.
  abbrev pub loop_start : Option UserMessage → Harness O → Run (Control O)
  loop_start prompt h = record {
    messages = repaired h.messages ++ prompt_messages prompt;
    events = prompt_events prompt;
    world = record { queues = h.queues; cancelled = false; outer = h.outer };
  }

  -- A run that is attempted on an idle harness yields the events of the loop, and leaves an idle
  -- harness under the next run token. Its transcript is the repaired transcript from before followed
  -- by what the events committed. If the flag of the run's token is set when the loop ends, that is
  -- repaired once more, so that every tool call in it is answered; otherwise it is left as it is.
  pub attempt-IsSettled :
      (fuel : ℕ) (prompt : Option UserMessage) (h : Harness O)
      → h.running ≡ false
      → (r : Outcome Unit) × (t : Run (Control O)) × (after : Harness O) × (run_agent_loop
            (loop_environment c)
            fuel
            (loop_start prompt h)
          ≡ (r, t))
        × (attempt c fuel prompt h ≡ ran r t.events after)
        × IsSettled h t.events t.world.cancelled after
  unfolding attempt run activate_run loop_environment
  attempt-IsSettled fuel prompt h idle =
      let before = activate_run h in
      let start = record before { messages = before.messages ++ prompt_messages prompt } in
      let o = run_agent_loop (loop_environment c) fuel (run_start start prompt) in
      (
        o.0,
        o.1,
        finish_run start o.1,
        refl,
        rw idle,
        finish_run-IsSettled h start o.1 refl (
            told_by_loop h prompt o.1
              (run_agent_loop-Replays (loop_environment c) fuel (run_start start prompt))),
      )
