-- ===== src/Loop/Phases.antt =====
-- The order of the events that tau_agent/loop.py yields: one run, its turns numbered from 1, each
-- ended before the next begins, and what may stand inside a turn and between two.
use tau_prime.Prelude.{
  ℕ, suc, ◌≡◌, refl, ap, ◌∙◌, String, Bool, true, Option, none, some, List, [], ◌∷◌, ◌++◌,
  append_assoc, leb, if◌then◌else◌, arith, ◌&&◌, Option-cases, inl, inr,
}
use tau_prime.Messages.{JsonObject, AgentMessage}
use tau_prime.Events.{
  AgentEvent, agent_start, agent_end, turn_start, turn_end, queue_update, message_start,
  message_end, error,
}
use tau_prime.Exec.{Run, Exec, emit, append_message}
use tau_prime.Exec.Respects.{IsPreorder, Respects, Respects-bind}
use tau_prime.Exec.Ends.{Ends, Ends-of_Respects}
use tau_prime.Loop.Relation.{inner, all_inner, IsTurnRelation}

-- Where a run stands: not begun, after `n` turns, in turn `n`, or over after `n` turns.
pub data Phase : Type 0 where
  idle : Phase
  ready in_turn over : ℕ → Phase

abbrev pub same : ℕ → ℕ → Bool
same a b = leb a b && leb b a

-- The event that may come next, and where it leads.
abbrev pub advance : Phase → AgentEvent → Option Phase
advance idle agent_start = some (ready 0)
advance idle _ = none
advance (ready n) agent_end = some (over n)
advance (ready n) (turn_start k) = if same k (suc n) then some (in_turn k) else none
advance (ready n) (queue_update _) = some (ready n)
advance (ready n) (message_start _) = some (ready n)
advance (ready n) (message_end _ _) = some (ready n)
advance (ready n) (error _ _ _) = some (ready n)
advance (ready n) _ = none
advance (in_turn n) (turn_end k) = if same k n then some (ready n) else none
advance (in_turn n) e = if inner e then some (in_turn n) else none
advance (over n) _ = none

abbrev pub accepts : Phase → List AgentEvent → Option Phase
accepts p [] = some p
accepts p (e ∷ es) = elim (advance p e) [ none ↦ none | some q ↦ accepts q es ]

pub accepts-append :
    (p q : Phase) (xs ys : List AgentEvent)
    → accepts p xs ≡ some q
    → accepts p (xs ++ ys) ≡ accepts q ys
accepts-append p q [] ys h = ground arith
accepts-append p q (x ∷ xs) ys h = elim (Option-cases (advance p x)) [
  | inl e ↦ ground arith
  | inr (r, e) ↦ ground (arith, accepts-append r q xs ys)
]

accepts-inner :
    (n : ℕ) (es : List AgentEvent) → all_inner es ≡ true → accepts (in_turn n) es ≡ some (in_turn n)
accepts-inner n [] h = refl
accepts-inner n (turn_end k ∷ es) h = cc
accepts-inner n (agent_start ∷ es) h = cc
accepts-inner n (agent_end ∷ es) h = cc
accepts-inner n (turn_start k ∷ es) h = cc
accepts-inner n (e ∷ es) h = accepts-inner n es h

-- The run's own events come after `base`, and they lead to the phase `p`.
pub record InPhase {W : Type 0} (base : List AgentEvent) (p : Phase) (s : Run W) : Type 0 where
  pub own : List AgentEvent
  pub after : s.events ≡ base ++ own
  pub accepted : accepts idle own ≡ some p

-- The events are at least a beginning of a run.
pub record IsBegun {W : Type 0} (base : List AgentEvent) (s : Run W) : Type 0 where
  pub phase : Phase
  pub stands : InPhase base phase s

module _ {W : Type 0} (base : List AgentEvent) where
  pub InPhase-emit :
      (p q : Phase) (es : List AgentEvent) (s : Run W)
      → accepts p es ≡ some q
      → InPhase base p s
      → InPhase base q (record s { events = s.events ++ es })
  InPhase-emit p q es s next h = record {
    own = h.own ++ es;
    after = ap (λ l. l ++ es) h.after ∙ append_assoc base h.own es;
    accepted = accepts-append idle p h.own es h.accepted ∙ next;
  }

  pub Ends-emit :
      (p q : Phase) (es : List AgentEvent) (s : Run W)
      → accepts p es ≡ some q
      → InPhase base p s
      → Ends (λ _. InPhase base q) (IsBegun base) (emit es) s
  unfolding emit
  Ends-emit p q es s next h = record { at = InPhase-emit p q es s next h }

  -- Inside a turn, the run stays inside the turn.
  pub StaysInTurn : Run W → Run W → Type 0
  StaysInTurn s t = (n : ℕ) → InPhase base (in_turn n) s → InPhase base (in_turn n) t

  StaysInTurn-preorder : IsPreorder StaysInTurn
  unfolding StaysInTurn
  StaysInTurn-preorder = record {
    reflexive = λ s n h. h;
    transitive = λ s t u p q n h. q n (p n h);
  }

  StaysInTurn-emit : (es : List AgentEvent) → all_inner es ≡ true → Respects StaysInTurn (emit es)
  unfolding StaysInTurn emit
  StaysInTurn-emit es h = record {
    at = λ s n p. InPhase-emit (in_turn n) (in_turn n) es s (accepts-inner n es h) p;
  }

  StaysInTurn-append_message : (m : AgentMessage) → Respects StaysInTurn (append_message m)
  unfolding StaysInTurn append_message
  StaysInTurn-append_message m = record {
    at = λ s n p. record { own = p.own; after = p.after; accepted = p.accepted };
  }

  pub StaysInTurn-IsTurnRelation : (str : JsonObject → String) → IsTurnRelation str StaysInTurn
  unfolding StaysInTurn
  StaysInTurn-IsTurnRelation str = record {
    order = StaysInTurn-preorder;
    asks = λ f. record {
      at = λ s n p. record { own = p.own; after = p.after; accepted = p.accepted };
    };
    emits = λ es _ h. StaysInTurn-emit es h;
    commits = λ m es k _ h kept.
        Respects-bind StaysInTurn-preorder _ _ (StaysInTurn-append_message m)
          (λ _. Respects-bind StaysInTurn-preorder _ _ (StaysInTurn-emit es h) (λ _. kept));
    commits_last = λ m es _ h.
        Respects-bind StaysInTurn-preorder _ _ (StaysInTurn-append_message m)
          (λ _. StaysInTurn-emit es h);
  }

  -- However a part of a turn ends, the run stands inside the turn.
  pub Ends-inside :
      {A : Type 0} (n : ℕ) (m : Exec W A) (s : Run W)
      → Respects StaysInTurn m
      → InPhase base (in_turn n) s
      → Ends (λ _. InPhase base (in_turn n)) (IsBegun base) m s
  unfolding StaysInTurn
  Ends-inside n m s k h =
      Ends-of_Respects (InPhase base (in_turn n)) (IsBegun base) m s k (λ t r. r n h)
        (λ t p. record { phase = in_turn n; stands = p })
