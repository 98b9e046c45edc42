-- ===== src/Loop/Transcript/Rules.antt =====
-- A relation between the events and the transcript of tau_agent/loop.py, and its rules.
use tau_prime.Prelude.{
  ◌≡◌, refl, sym, ap, ◌∙◌, String, Bool, true, false, if◌then◌else◌, List, [], ◌∷◌, ◌++◌,
  append-nil, append_assoc,
}
use tau_prime.Messages.{JsonObject, AgentMessage}
use tau_prime.Events.{AgentEvent}
use tau_prime.Exec.{
  Outcome, returned, aborted, exhausted, Run, Exec, pure, abort, exhaust, ask, continue, ◌>>=◌,
  ◌>>◌, emit, append_message,
}
use tau_prime.Exec.Respects.{
  IsPreorder, Respects, Respects-pure, Respects-abort, Respects-exhaust, Respects-bind,
}
use tau_prime.Loop.Relation.{committed, committed-append, IsTurnRelation}

-- What an action added to the transcript is what its events commit.
pub record Replays {W : Type 0} (str : JsonObject → String) (s t : Run W) : Type 0 where
  pub added : List AgentEvent
  pub yielded : t.events ≡ s.events ++ added
  pub written : t.messages ≡ s.messages ++ committed str added

module _ {W : Type 0} (str : JsonObject → String) where
  pub Replays-preorder : IsPreorder {W = W} (Replays str)
  Replays-preorder = record {
    reflexive =
        λ s. record { added = []; yielded = sym (append-nil _); written = sym (append-nil _) };
    transitive = λ s t u p q. record {
      added = p.added ++ q.added;
      yielded =
          q.yielded ∙ ap (λ l. l ++ q.added) p.yielded ∙ append_assoc s.events p.added q.added;
      written =
          q.written
          ∙ ap (λ l. l ++ committed str q.added) p.written
          ∙ append_assoc s.messages (committed str p.added) (committed str q.added)
          ∙ ap (◌++◌ s.messages) (sym (committed-append str p.added q.added));
    };
  }

  -- Events that commit nothing.
  pub Told-emit :
      (es : List AgentEvent) → committed str es ≡ [] → Respects (Replays str) (emit {W = W} es)
  unfolding emit
  Told-emit es silent = record {
    at = λ s. record {
      added = es;
      yielded = refl;
      written = sym (ap (◌++◌ s.messages) silent ∙ append-nil s.messages);
    };
  }

  pub Told-ask : {A : Type 0} (f : W → A × W) → Respects (Replays str) (ask f)
  Told-ask f = record {
    at = λ s. record { added = []; yielded = sym (append-nil _); written = sym (append-nil _) };
  }

  -- The transcript is ahead of the events by `ms`, which the action makes up for.
  pub record Owes {A : Type 0} (ms : List AgentMessage) (m : Exec W A) : Type 0 where
    pub at :
        (s t : Run W) → t.events ≡ s.events → t.messages ≡ s.messages ++ ms → Replays str s (m t).1

  pub Owes-none : {A : Type 0} (m : Exec W A) → Respects (Replays str) m → Owes [] m
  Owes-none m k = record {
    at = λ s t e h.
        (Replays-preorder).transitive s t (m t).1
          (record { added = []; yielded = e ∙ sym (append-nil _); written = h }) (k.at t);
  }

  pub Owes-emit :
      (ms : List AgentMessage) (es : List AgentEvent)
      → committed str es ≡ ms
      → Owes ms (emit {W = W} es)
  unfolding emit
  Owes-emit ms es pays = record {
    at = λ s t e h. record {
      added = es;
      yielded = ap (λ l. l ++ es) e;
      written = h ∙ ap (◌++◌ s.messages) (sym pays);
    };
  }

module _ {W : Type 0} (str : JsonObject → String) {A : Type 0} where
  continue-Replays :
      {B : Type 0} (r : Outcome A) (f : A → Exec W B) (s t : Run W)
      → Replays str s t
      → ((a : A) → Respects (Replays str) (f a))
      → Replays str s (continue r f t).1
  continue-Replays (returned a) f s t h kf = (Replays-preorder str).transitive s t _ h ((kf a).at t)
  continue-Replays aborted f s t h kf = h
  continue-Replays exhausted f s t h kf = h

  pub Owes-bind :
      {B : Type 0} (ms : List AgentMessage) (m : Exec W A) (f : A → Exec W B)
      → Owes str ms m
      → ((a : A) → Respects (Replays str) (f a))
      → Owes str ms (m >>= f)
  unfolding ◌>>=◌
  Owes-bind ms m f o kf = record {
    at = λ s t e h. let (r, u) = m t in continue-Replays r f s u (o.at s t e h) kf;
  }

  pub Told-append :
      (m : AgentMessage) (k : Exec W A)
      → Owes str (m ∷ []) k
      → Respects (Replays str) (append_message m >> k)
  unfolding ◌>>=◌ append_message
  Told-append m k o = record {
    at = λ s. o.at s (record s { messages = s.messages ++ m ∷ [] }) refl refl;
  }

-- The rules of `Respects` for this relation.
module _ {W : Type 0} (str : JsonObject → String) where
  abbrev pub Told : {A : Type 0} → Exec W A → Type 0
  Told = Respects (Replays str)

  pub Told-pure : {A : Type 0} (a : A) → Told (pure a)
  Told-pure = Respects-pure (Replays-preorder str)

  pub Told-abort : (A : Type 0) → Told (abort {A = A})
  Told-abort = Respects-abort (Replays-preorder str)

  pub Told-exhaust : (A : Type 0) → Told (exhaust {A = A})
  Told-exhaust = Respects-exhaust (Replays-preorder str)

  pub Told-bind :
      {A B : Type 0} (m : Exec W A) (f : A → Exec W B)
      → Told m
      → ((a : A) → Told (f a))
      → Told (m >>= f)
  Told-bind = Respects-bind (Replays-preorder str)

  pub Told-if :
      {A : Type 0} (b : Bool) (m n : Exec W A) → Told m → Told n → Told (if b then m else n)
  Told-if true m n p q = p
  Told-if false m n p q = q

-- Told is what every part of a turn keeps.
pub Replays-IsTurnRelation :
    {W : Type 0} (str : JsonObject → String) → IsTurnRelation str (Replays {W = W} str)
Replays-IsTurnRelation str = record {
  order = Replays-preorder str;
  asks = Told-ask str;
  emits = λ es silent _. Told-emit str es silent;
  commits = λ m es k one _ kept.
      Told-append str m _ (Owes-bind str _ _ _ (Owes-emit str _ es one) (λ _. kept));
  commits_last = λ m es one _. Told-append str m _ (Owes-emit str _ es one);
}
