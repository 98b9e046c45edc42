-- ===== src/Exec/Completes.antt =====
-- Actions that do not run out of the fuel of the model, and a rule for each way to build one.
use tau_prime.Prelude.{◌≢◌, refl, Bool, true, false, if◌then◌else◌, List}
use tau_prime.Messages.{AgentMessage}
use tau_prime.Events.{AgentEvent}
use tau_prime.Exec.{
  Outcome, returned, aborted, exhausted, Run, Exec, pure, abort, ask, continue, ◌>>=◌, emit,
  append_message, extend_messages,
}

pub record Completes {W A : Type 0} (m : Exec W A) : Type 0 where
  pub at : (s : Run W) → (m s).0 ≢ exhausted

module _ {W A : Type 0} where
  pub Completes-pure : (a : A) → Completes (pure {W = W} a)
  Completes-pure a = record { at = λ s e. cc }

  pub Completes-abort : Completes (abort {W = W} {A = A})
  Completes-abort = record { at = λ s e. cc }

  pub Completes-ask : (f : W → A × W) → Completes (ask f)
  Completes-ask f = record { at = λ s e. cc }

  pub Completes-if :
      (b : Bool) (m n : Exec W A) → Completes m → Completes n → Completes (if b then m else n)
  Completes-if true m n p q = p
  Completes-if false m n p q = q

module _ {W A B : Type 0} where
  continue-Completes :
      (r : Outcome A) (f : A → Exec W B) (t : Run W)
      → r ≢ exhausted
      → ((a : A) → Completes (f a))
      → (continue r f t).0 ≢ exhausted
  continue-Completes (returned a) f t h kf = (kf a).at t
  continue-Completes aborted f t h kf = λ e. cc
  continue-Completes exhausted f t h kf = absurd (h refl)

  pub Completes-bind :
      (m : Exec W A) (f : A → Exec W B)
      → Completes m
      → ((a : A) → Completes (f a))
      → Completes (m >>= f)
  unfolding ◌>>=◌
  Completes-bind m f km kf = record {
    at = λ s. let (r, t) = m s in continue-Completes r f t (km.at s) kf;
  }

module _ {W : Type 0} where
  pub Completes-emit : (es : List AgentEvent) → Completes (emit {W = W} es)
  unfolding emit
  Completes-emit es = record { at = λ s e. cc }

  pub Completes-append_message : (m : AgentMessage) → Completes (append_message {W = W} m)
  unfolding append_message
  Completes-append_message m = record { at = λ s e. cc }

  pub Completes-extend_messages : (ms : List AgentMessage) → Completes (extend_messages {W = W} ms)
  unfolding extend_messages
  Completes-extend_messages ms = record { at = λ s e. cc }

pub ruleset completes_rules = (
  Completes-pure, Completes-abort, Completes-ask, Completes-if, Completes-bind, Completes-emit,
  Completes-append_message, Completes-extend_messages,
)
