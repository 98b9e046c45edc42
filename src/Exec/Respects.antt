-- ===== src/Exec/Respects.antt =====
-- Relations between the states before and after an action, however it ends, and one rule for each
-- way to build an action.
use tau_prime.Prelude.{Bool, true, false, if◌then◌else◌}
use tau_prime.Exec.{
  Outcome, returned, aborted, exhausted, Run, Exec, pure, abort, exhaust, continue, ◌>>=◌,
}

pub record IsPreorder {W : Type 0} (R : Run W → Run W → Type 0) : Type 0 where
  pub reflexive : (s : Run W) → R s s
  pub transitive : (s t u : Run W) → R s t → R t u → R s u

pub record Respects {W A : Type 0} (R : Run W → Run W → Type 0) (m : Exec W A) : Type 0 where
  pub at : (s : Run W) → R s (m s).1

module _ {W : Type 0} {R : Run W → Run W → Type 0} (order : IsPreorder R) where
  pub Respects-pure : {A : Type 0} (a : A) → Respects R (pure {W = W} a)
  Respects-pure a = record { at = order.reflexive }

  pub Respects-abort : (A : Type 0) → Respects R (abort {W = W} {A = A})
  Respects-abort A = record { at = order.reflexive }

  pub Respects-exhaust : (A : Type 0) → Respects R (exhaust {W = W} {A = A})
  Respects-exhaust A = record { at = order.reflexive }

  continue-Respects :
      {A B : Type 0} (r : Outcome A) (f : A → Exec W B) (s t : Run W)
      → R s t
      → ((a : A) → Respects R (f a))
      → R s (continue r f t).1
  continue-Respects (returned a) f s t h kf = order.transitive s t _ h ((kf a).at t)
  continue-Respects aborted f s t h kf = h
  continue-Respects exhausted f s t h kf = h

  pub Respects-bind :
      {A B : Type 0} (m : Exec W A) (f : A → Exec W B)
      → Respects R m
      → ((a : A) → Respects R (f a))
      → Respects R (m >>= f)
  unfolding ◌>>=◌
  Respects-bind m f km kf = record {
    at = λ s. let (r, t) = m s in continue-Respects r f s t (km.at s) kf;
  }

module _ {W A : Type 0} {R : Run W → Run W → Type 0} where
  pub Respects-if :
      (b : Bool) (m n : Exec W A) → Respects R m → Respects R n → Respects R (if b then m else n)
  Respects-if true m n p q = p
  Respects-if false m n p q = q
