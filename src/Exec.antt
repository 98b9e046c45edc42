-- ===== src/Exec.antt =====
-- Python coroutines that append to a transcript and yield events, over a world that the code they
-- await may change: a state monad in which an action may also be torn down part way. What was
-- appended and yielded before then stays.
pub mod Respects
pub mod Ends
pub mod Completes
use tau_prime.Prelude.{List, [], ◌∷◌, ◌++◌}
use tau_prime.Messages.{AgentMessage}
use tau_prime.Events.{AgentEvent}

-- `aborted`: an exception leaves the coroutine (`CancelledError`, or one of the provider's).
-- `exhausted`: the model's fuel ran out.
pub data Outcome {ℓ} (A : Type ℓ) : Type ℓ where
  returned : A → Outcome A
  aborted : Outcome A
  exhausted : Outcome A

-- The transcript, the events yielded so far (oldest first) and the rest of the world.
pub record Run (W : Type 0) : Type 0 where
  pub messages : List AgentMessage
  pub events : List AgentEvent
  pub world : W

abbrev pub Exec : Type 0 → Type 0 → Type 0
Exec W A = Run W → Outcome A × Run W

module _ {W A : Type 0} where
  abbrev pub pure : A → Exec W A
  pure a s = (returned a, s)

  abbrev pub abort : Exec W A
  abort s = (aborted, s)

  abbrev pub exhaust : Exec W A
  exhaust s = (exhausted, s)

  -- Code of the environment runs and answers.
  abbrev pub ask : (W → A × W) → Exec W A
  ask f s = let (a, w) = f s.world in (returned a, record s { world = w })

module _ {W A B : Type 0} where
  abbrev pub continue : Outcome A → (A → Exec W B) → Exec W B
  continue (returned a) f s = f a s
  continue aborted f s = (aborted, s)
  continue exhausted f s = (exhausted, s)

  infixl 10 ◌>>=◌ ◌>>◌
  unfoldable pub ◌>>=◌ : Exec W A → (A → Exec W B) → Exec W B
  ◌>>=◌ m f s = let (r, s') = m s in continue r f s'

  abbrev pub ◌>>◌ : Exec W A → Exec W B → Exec W B
  m >> n = m >>= λ _. n

module _ {W : Type 0} where
  -- `yield event`, for each event in turn
  unfoldable pub emit : List AgentEvent → Exec W Unit
  emit es s = (returned tt, record s { events = s.events ++ es })

  -- `messages.append(message)`
  unfoldable pub append_message : AgentMessage → Exec W Unit
  append_message m s = (returned tt, record s { messages = s.messages ++ m ∷ [] })

  -- `messages.extend(more)`
  unfoldable pub extend_messages : List AgentMessage → Exec W Unit
  extend_messages ms s = (returned tt, record s { messages = s.messages ++ ms })
