-- ===== src/Harness/Queues.antt =====
-- The queues of `AgentHarness`: steering and follow-up messages.
pub mod Order
use tau_prime.Prelude.{
  ℕ, ◌+◌, String, Bool, true, false, Option, none, some, List, [], ◌∷◌, ◌++◌, map, length, reverse,
}
use tau_prime.Messages.{AgentMessage, user, assistant, tool, user_text}
use tau_prime.Events.{QueueUpdate}

pub data QueueMode : Type 0 where
  one_at_a_time all : QueueMode

-- `_steering_queue` and `_follow_up_queue`, oldest first, with the configured mode.
pub record Queues : Type 0 where
  pub steering : List AgentMessage
  pub follow_up : List AgentMessage
  pub mode : QueueMode

-- `message.content`
abbrev pub content : AgentMessage → String
content (user m) = m.content
content (assistant m) = m.content
content (tool m) = m.content

unfoldable pub queue_update_event : Queues → QueueUpdate
queue_update_event q = record {
  steering = map content q.steering;
  follow_up = map content q.follow_up;
}

-- `QueuedMessages.count`
unfoldable pub pending_message_count : Queues → ℕ
pending_message_count q = length q.steering + length q.follow_up

unfoldable pub steer_message : AgentMessage → Queues → QueueUpdate × Queues
unfolding queue_update_event
steer_message m q =
    let q' = record q { steering = q.steering ++ m ∷ [] } in (queue_update_event q', q')

unfoldable pub follow_up_message : AgentMessage → Queues → QueueUpdate × Queues
unfolding queue_update_event
follow_up_message m q =
    let q' = record q { follow_up = q.follow_up ++ m ∷ [] } in (queue_update_event q', q')

unfoldable pub steer : String → Queues → QueueUpdate × Queues
unfolding steer_message
steer text q = steer_message (user_text text) q

unfoldable pub follow_up_text : String → Queues → QueueUpdate × Queues
unfolding follow_up_message
follow_up_text text q = follow_up_message (user_text text) q

-- The cleared messages come back.
unfoldable pub clear_queues : Queues → (List AgentMessage × List AgentMessage) × Queues
clear_queues q = ((q.steering, q.follow_up), record q { steering = []; follow_up = [] })

-- The last entry of a queue, and the queue without it.
unfoldable pub pop_last : List AgentMessage → Option (AgentMessage × List AgentMessage)
pop_last [] = none
pop_last (m ∷ ms) = elim (pop_last ms) [ none ↦ some (m, ms) | some (l, rest) ↦ some (l, m ∷ rest) ]

popped : Queues → Option (AgentMessage × List AgentMessage) → Option AgentMessage × Queues
popped q none = (none, q)
popped q (some (m, rest)) = (some m, record q { follow_up = rest })

unfoldable pub pop_latest_follow_up : Queues → Option AgentMessage × Queues
unfolding popped pop_last
pop_latest_follow_up q = popped q (pop_last q.follow_up)

-- `_drain_queue`: what is handed out, and what stays.
unfoldable pub drain_queue : QueueMode → List AgentMessage → List AgentMessage × List AgentMessage
drain_queue mode [] = ([], [])
drain_queue all (m ∷ ms) = (m ∷ ms, [])
drain_queue one_at_a_time (m ∷ ms) = (m ∷ [], ms)

unfoldable pub drain_steering_messages : Queues → List AgentMessage × Queues
unfolding drain_queue
drain_steering_messages q =
    let (handed, kept) = drain_queue q.mode q.steering in (handed, record q { steering = kept })

unfoldable pub drain_follow_up_messages : Queues → List AgentMessage × Queues
unfolding drain_queue
drain_follow_up_messages q =
    let (handed, kept) = drain_queue q.mode q.follow_up in (handed, record q { follow_up = kept })
