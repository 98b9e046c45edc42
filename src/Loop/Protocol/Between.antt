-- ===== src/Loop/Protocol/Between.antt =====
-- On the order of the events at the end of a turn in tau_agent/loop.py, and of the drains after it.
use tau_prime.Prelude.{ℕ, ◌≡◌, refl, ◌∙◌, Bool, true, Option, none, some, List, [], ◌∷◌, arith}
use tau_prime.Messages.{ToolCall, AgentMessage}
use tau_prime.Events.{QueueUpdate, AgentEvent, turn_end}
use tau_prime.Exec.{Run, Exec, emit, extend_messages}
use tau_prime.Exec.Ends.{Ends, Ends-pure, Ends-ask, Ends-bind}
use tau_prime.Loop.Environment.{Environment}
use tau_prime.Loop.Tools.{polled, poll}
use tau_prime.Loop.Turns.{
  Next, queued_events, queue_update_events, drained, drain_queued_messages, or_otherwise,
  answered_turn, tool_turn,
}
use tau_prime.Loop.Calls.{execute_tool_calls-Respects}
use tau_prime.Loop.Phases.{
  Phase, ready, in_turn, same, accepts, accepts-append, InPhase, IsBegun, Ends-emit, Ends-inside,
  StaysInTurn-IsTurnRelation,
}

pub same_self : (n : ℕ) → same n n ≡ true
same_self n = ground arith

accepts-queued :
    (n : ℕ) (ms : List AgentMessage) → accepts (ready n) (queued_events ms) ≡ some (ready n)
unfolding queued_events
accepts-queued n [] = refl
accepts-queued n (m ∷ ms) = accepts-queued n ms

module _ {W : Type 0} (env : Environment W) (base : List AgentEvent) where
  -- After `n` turns, with events at hand that may be yielded there.
  pub record IsPaused (n : ℕ) (es : List AgentEvent) (t : Run W) : Type 0 where
    pub stands : InPhase base (ready n) t
    pub fits : accepts (ready n) es ≡ some (ready n)

  -- After turn `n`, whichever way the loop goes on.
  abbrev pub Settled : ℕ → Next → Run W → Type 0
  Settled n next t = InPhase base (ready n) t

  pub Ends-poll :
      (p : Phase) (s : Run W)
      → InPhase base p s
      → Ends (λ _. InPhase base p) (IsBegun base) (poll env) s
  unfolding poll
  Ends-poll p s h = by_signal env.is_cancelled
    where
      by_signal :
          (o : Option (W → Bool × W)) → Ends (λ _. InPhase base p) (IsBegun base) (polled env o) s
      by_signal none = unfold polled in Ends-pure _ _ _ s h
      by_signal (some f) =
          unfold polled in
          Ends-ask _ _ f s (record { own = h.own; after = h.after; accepted = h.accepted })

  Ends-queue_update :
      (n : ℕ) (o : Option (W → QueueUpdate × W)) (s : Run W)
      → InPhase base (ready n) s
      → Ends (IsPaused n) (IsBegun base) (queue_update_events env o) s
  unfolding queue_update_events
  Ends-queue_update n none s h = Ends-pure _ _ _ _ (record { stands = h; fits = refl })
  Ends-queue_update n (some g) s h =
      Ends-bind (λ _. InPhase base (ready n)) _ _ _ _ s
        (Ends-ask _ _ g s (record { own = h.own; after = h.after; accepted = h.accepted }))
        (λ u t k. Ends-pure _ _ _ t (record { stands = k; fits = refl }))

  Ends-drained :
      (n : ℕ) (ms : List AgentMessage) (s : Run W)
      → InPhase base (ready n) s
      → Ends (IsPaused n) (IsBegun base) (drained env ms) s
  unfolding drained
  Ends-drained n [] s h = Ends-pure _ _ _ _ (record { stands = h; fits = refl })
  Ends-drained n (m ∷ ms) s h =
      Ends-bind (λ _. InPhase base (ready n)) _ _ _ _ s
        (unfold extend_messages in
          record { at = record { own = h.own; after = h.after; accepted = h.accepted } })
        λ _ t k.
          Ends-bind (IsPaused n) _ _ _ _ t (Ends-queue_update n env.get_queue_update t k)
            λ more u p. Ends-pure _ _ _ u (record {
              stands = p.stands;
              fits =
                  accepts-append (ready n) (ready n) (queued_events (m ∷ ms)) more
                    (accepts-queued n (m ∷ ms))
                  ∙ p.fits;
            })

  Ends-drain :
      (n : ℕ) (g : Option (W → List AgentMessage × W)) (s : Run W)
      → InPhase base (ready n) s
      → Ends (IsPaused n) (IsBegun base) (drain_queued_messages env g) s
  unfolding drain_queued_messages
  Ends-drain n none s h = Ends-pure _ _ _ _ (record { stands = h; fits = refl })
  Ends-drain n (some g) s h =
      Ends-bind (λ _. InPhase base (ready n)) _ _ _ _ s
        (Ends-ask _ _ g s (record { own = h.own; after = h.after; accepted = h.accepted }))
        (λ ms t k. Ends-drained n ms t k)

  Ends-or_otherwise :
      (n : ℕ) (es : List AgentEvent) (otherwise : Exec W Next) (s : Run W)
      → IsPaused n es s
      → (InPhase base (ready n) s → Ends (Settled n) (IsBegun base) otherwise s)
      → Ends (Settled n) (IsBegun base) (or_otherwise env es otherwise) s
  unfolding or_otherwise
  Ends-or_otherwise n [] otherwise s p k = k p.stands
  Ends-or_otherwise n (e ∷ es) otherwise s p k =
      Ends-bind (λ _. InPhase base (ready n)) _ _ _ _ s (Ends-emit base _ _ _ s p.fits p.stands)
        (λ _ t h. Ends-pure _ _ _ t h)

  -- `turn_end` closes the turn that it names.
  Ends-turn_end :
      (n : ℕ) (s : Run W)
      → InPhase base (in_turn n) s
      → Ends (λ _. InPhase base (ready n)) (IsBegun base) (emit (turn_end n ∷ [])) s
  Ends-turn_end n s h = Ends-emit base _ _ _ s (ground (arith, same_self n)) h

  pub Ends-answered_turn :
      (n : ℕ) (s : Run W)
      → InPhase base (in_turn n) s
      → Ends (Settled n) (IsBegun base) (answered_turn env n) s
  unfolding answered_turn
  Ends-answered_turn n s h = Ends-bind _ _ _ _ _ s (Ends-turn_end n s h) λ _ t k.
      Ends-bind _ _ _ _ _ t (Ends-drain n env.get_steering_messages t k) λ es u p.
        Ends-or_otherwise n es _ u p λ j.
          Ends-bind _ _ _ _ _ u (Ends-drain n env.get_follow_up_messages u j)
            λ fs v q. Ends-or_otherwise n fs _ v q λ i. Ends-pure _ _ _ v i

  pub Ends-tool_turn :
      (n : ℕ) (calls : List ToolCall) (s : Run W)
      → InPhase base (in_turn n) s
      → Ends (Settled n) (IsBegun base) (tool_turn env n calls) s
  unfolding tool_turn
  Ends-tool_turn n calls s h =
      Ends-bind _ _ _ _ _ s
        (Ends-inside base n _ s
          (execute_tool_calls-Respects env (StaysInTurn-IsTurnRelation base env.str_dict) calls) h)
        λ _ t k. Ends-bind _ _ _ _ _ t (Ends-turn_end n t k) λ _ u j.
          Ends-bind _ _ _ _ _ u (Ends-drain n env.get_steering_messages u j) λ es v p.
            Ends-bind _ _ _ _ _ v (Ends-emit base _ _ es v p.fits p.stands)
              (λ _ w i. Ends-pure _ _ _ w i)
