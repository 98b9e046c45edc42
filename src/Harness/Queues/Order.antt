-- ===== src/Harness/Queues/Order.antt =====
-- On the order of the messages in the queues of `AgentHarness`.
use tau_prime.Prelude.{
  ◌≡◌, refl, sym, ap, ◌∙◌, some, List, [], ◌∷◌, ◌++◌, append-nil, append_assoc, arith,
}
use tau_prime.Messages.{AgentMessage}
use tau_prime.Harness.Queues.{
  QueueMode, one_at_a_time, all, Queues, steer_message, follow_up_message, drain_queue,
  drain_steering_messages, pop_latest_follow_up, pop_last,
}

-- The things that the program does to the steering queue: a message comes in, or the loop asks.
pub data Action : Type 0 where
  queued : AgentMessage → Action
  drained : Action

-- What these actions hand out to the loop, one after the other, and the queues after them.
pub run_actions : Queues → List Action → List AgentMessage × Queues
run_actions q [] = ([], q)
run_actions q (queued m ∷ actions) = run_actions (steer_message m q).1 actions
run_actions q (drained ∷ actions) =
    let (handed, q') = drain_steering_messages q in
    let (later, q'') = run_actions q' actions in (handed ++ later, q'')

-- What came in.
pub incoming : List Action → List AgentMessage
incoming [] = []
incoming (queued m ∷ actions) = m ∷ incoming actions
incoming (drained ∷ actions) = incoming actions

drain_queue-append :
    (mode : QueueMode) (ms : List AgentMessage)
    → (drain_queue mode ms).0 ++ (drain_queue mode ms).1 ≡ ms
unfolding drain_queue
drain_queue-append mode [] = refl
drain_queue-append all (m ∷ ms) = append-nil (m ∷ ms)
drain_queue-append one_at_a_time (m ∷ ms) = refl

-- However messages are steered in and the loop asks for them, in either mode: what was handed out,
-- followed by what still waits, is what waited at first, followed by what came in, in order.
pub run_actions-fifo :
    (q : Queues) (actions : List Action)
    → (run_actions q actions).0 ++ (run_actions q actions).1.steering
      ≡ q.steering ++ incoming actions
unfolding run_actions incoming steer_message drain_steering_messages
run_actions-fifo q [] = sym (append-nil q.steering)
run_actions-fifo q (queued m ∷ actions) =
    run_actions-fifo (steer_message m q).1 actions
    ∙ append_assoc q.steering (m ∷ []) (incoming actions)
run_actions-fifo q (drained ∷ actions) =
    let q' = (drain_steering_messages q).1 in
    append_assoc (drain_steering_messages q).0 (run_actions q' actions).0
      (run_actions q' actions).1.steering
    ∙ ap (◌++◌ (drain_steering_messages q).0) (run_actions-fifo q' actions)
    ∙ sym (append_assoc (drain_steering_messages q).0 q'.steering (incoming actions))
    ∙ ap (λ l. l ++ incoming actions) (drain_queue-append q.mode q.steering)

pop_last-snoc : (ms : List AgentMessage) (m : AgentMessage) → pop_last (ms ++ m ∷ []) ≡ some (m, ms)
unfolding pop_last
pop_last-snoc [] m = refl
pop_last-snoc (x ∷ ms) m = ground (arith, pop_last-snoc ms m)

-- The message that `pop_latest_follow_up` takes out is the last that was queued; the others stay.
pub pop_latest_follow_up-follow_up_message :
    (q : Queues) (m : AgentMessage) → pop_latest_follow_up (follow_up_message m q).1 ≡ (some m, q)
unfolding pop_latest_follow_up follow_up_message
pop_latest_follow_up-follow_up_message q m = ground (arith, pop_last-snoc q.follow_up m)
