-- ===== src/Exec/Ends.antt =====
-- What holds when an action ends: one condition for a return, one for being torn down, and a rule for
-- each way to build an action.
use tau_prime.Prelude.{Bool, true, false, if◌then◌else◌}
use tau_prime.Exec.{
  Outcome, returned, aborted, exhausted, Run, Exec, pure, abort, exhaust, ask, continue, ◌>>=◌,
}
use tau_prime.Exec.Respects.{Respects}

module _ {W A : Type 0} where
  abbrev pub EndsAt : (A → Run W → Type 0) → (Run W → Type 0) → Outcome A → Run W → Type 0
  EndsAt post torn (returned a) t = post a t
  EndsAt post torn aborted t = torn t
  EndsAt post torn exhausted t = torn t

  pub record Ends (post : A → Run W → Type 0) (torn : Run W → Type 0) (m : Exec W A) (s : Run W)
      : Type 0 where
    pub at : EndsAt post torn (m s).0 (m s).1

module _ {W A : Type 0} (post : A → Run W → Type 0) (torn : Run W → Type 0) where
  pub Ends-pure : (a : A) (s : Run W) → post a s → Ends post torn (pure a) s
  Ends-pure a s h = record { at = h }

  pub Ends-abort : (s : Run W) → torn s → Ends post torn abort s
  Ends-abort s h = record { at = h }

  pub Ends-exhaust : (s : Run W) → torn s → Ends post torn exhaust s
  Ends-exhaust s h = record { at = h }

  pub Ends-ask :
      (f : W → A × W) (s : Run W)
      → post (f s.world).0 (record s { world = (f s.world).1 })
      → Ends post torn (ask f) s
  Ends-ask f s h = record { at = h }

  pub Ends-if :
      (b : Bool) (m n : Exec W A) (s : Run W)
      → Ends post torn m s
      → Ends post torn n s
      → Ends post torn (if b then m else n) s
  Ends-if true m n s p q = p
  Ends-if false m n s p q = q

module _ {W A B : Type 0} (mid : A → Run W → Type 0) (post : B → Run W → Type 0)
    (torn : Run W → Type 0) where
  continue-Ends :
      (r : Outcome A) (f : A → Exec W B) (t : Run W)
      → EndsAt mid torn r t
      → ((a : A) (u : Run W) → mid a u → Ends post torn (f a) u)
      → EndsAt post torn (continue r f t).0 (continue r f t).1
  continue-Ends (returned a) f t h kf = (kf a t h).at
  continue-Ends aborted f t h kf = h
  continue-Ends exhausted f t h kf = h

  pub Ends-bind :
      (m : Exec W A) (f : A → Exec W B) (s : Run W)
      → Ends mid torn m s
      → ((a : A) (t : Run W) → mid a t → Ends post torn (f a) t)
      → Ends post torn (m >>= f) s
  unfolding ◌>>=◌
  Ends-bind m f s km kf = record { at = let (r, t) = m s in continue-Ends r f t km.at kf }

EndsAt-always :
    {W A : Type 0} (P torn : Run W → Type 0) (o : Outcome A) (t : Run W)
    → P t
    → (P t → torn t)
    → EndsAt (λ _. P) torn o t
EndsAt-always P torn (returned a) t h k = h
EndsAt-always P torn aborted t h k = k h
EndsAt-always P torn exhausted t h k = k h

-- A relation that an action keeps gives a condition that holds however it ends.
pub Ends-of_Respects :
    {W A : Type 0} {R : Run W → Run W → Type 0} (P torn : Run W → Type 0) (m : Exec W A) (s : Run W)
    → Respects R m
    → ((t : Run W) → R s t → P t)
    → ((t : Run W) → P t → torn t)
    → Ends (λ _. P) torn m s
Ends-of_Respects P torn m s k f g = record {
  at = EndsAt-always P torn (m s).0 (m s).1 (f _ (k.at s)) (g _);
}

module _ {W A : Type 0} (post weaker : A → Run W → Type 0) (torn : Run W → Type 0) where
  EndsAt-weaken :
      (o : Outcome A) (t : Run W)
      → ((a : A) (u : Run W) → post a u → weaker a u)
      → EndsAt post torn o t
      → EndsAt weaker torn o t
  EndsAt-weaken (returned a) t f h = f a t h
  EndsAt-weaken aborted t f h = h
  EndsAt-weaken exhausted t f h = h

  pub Ends-weaken :
      (m : Exec W A) (s : Run W)
      → ((a : A) (u : Run W) → post a u → weaker a u)
      → Ends post torn m s
      → Ends weaker torn m s
  Ends-weaken m s f k = record { at = EndsAt-weaken (m s).0 (m s).1 f k.at }

module _ {W A : Type 0} (post weaker : A → Run W → Type 0) (torn broken : Run W → Type 0) where
  EndsAt-map :
      (o : Outcome A) (t : Run W)
      → ((a : A) (u : Run W) → post a u → weaker a u)
      → ((u : Run W) → torn u → broken u)
      → EndsAt post torn o t
      → EndsAt weaker broken o t
  EndsAt-map (returned a) t f g h = f a t h
  EndsAt-map aborted t f g h = g t h
  EndsAt-map exhausted t f g h = g t h

  pub Ends-map :
      (m : Exec W A) (s : Run W)
      → ((a : A) (u : Run W) → post a u → weaker a u)
      → ((u : Run W) → torn u → broken u)
      → Ends post torn m s
      → Ends weaker broken m s
  Ends-map m s f g k = record { at = EndsAt-map (m s).0 (m s).1 f g k.at }
