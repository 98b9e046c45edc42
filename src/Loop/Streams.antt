-- ===== src/Loop/Streams.antt =====
-- Turn relations and the actions of `Loop.Stream`.
use tau_prime.Prelude.{
  ℕ, suc, ◌≡◌, refl, ap, ◌∙◌, String, Bool, true, false, Option, List, [], ◌∷◌, ◌++◌,
}
use tau_prime.Messages.{JsonObject, ToolCall, AssistantMessage, AgentMessage, assistant}
use tau_prime.Events.{ProviderEvent, ProviderUsage, AgentEvent}
use tau_prime.Exec.{Run}
use tau_prime.Exec.Respects.{Respects, Respects-pure, Respects-abort, Respects-bind}
use tau_prime.Loop.Relation.{
  committed, committed-append, all_inner, all_inner-append, IsTurnRelation,
}
use tau_prime.Loop.Environment.{StreamEnd, ended, Environment}
use tau_prime.Loop.Stream.{
  Turn, unless, whenever, tool_call_updates, response_end_events, handle, handle_all, stream_ended,
  asked_with_messages, consume_stream, fresh_turn,
}
use tau_prime.Loop.Turns.{queued_events}

committed-whenever :
    (str : JsonObject → String) (b : Bool) (es xs : List AgentEvent)
    → committed str es ≡ []
    → committed str (whenever b es ++ xs) ≡ committed str xs
committed-whenever str true es xs h = committed-append str es xs ∙ ap (λ l. l ++ committed str xs) h
committed-whenever str false es xs h = refl

pub committed-unless :
    (str : JsonObject → String) (b : Bool) (es : List AgentEvent)
    → committed str es ≡ []
    → committed str (unless b es) ≡ []
committed-unless str true es h = refl
committed-unless str false es h = h

committed-tool_call_updates :
    (str : JsonObject → String) (m : AssistantMessage) (index : ℕ) (calls : List ToolCall)
    → committed str (tool_call_updates m index calls) ≡ []
unfolding tool_call_updates
committed-tool_call_updates str m index [] = refl
committed-tool_call_updates str m index (call ∷ calls) =
    committed-tool_call_updates str m (suc index) calls

-- Of the events of a response only the last commits a message.
committed-response_end :
    (str : JsonObject → String) (t : Turn) (m : AssistantMessage) (usage : Option ProviderUsage)
    → committed str (response_end_events t m usage) ≡ assistant m ∷ []
unfolding response_end_events
committed-response_end str t m usage =
    committed-whenever str t.text_started _ _ refl
    ∙ committed-whenever str t.thinking_started _ _ refl
    ∙ committed-append str (tool_call_updates m 0 m.tool_calls) _
    ∙ ap (λ l. l ++ assistant m ∷ []) (committed-tool_call_updates str m 0 m.tool_calls)

all_inner-whenever :
    (b : Bool) (es xs : List AgentEvent)
    → all_inner es ≡ true
    → all_inner xs ≡ true
    → all_inner (whenever b es ++ xs) ≡ true
all_inner-whenever true es xs h k = all_inner-append es xs h k
all_inner-whenever false es xs h k = k

all_inner-unless :
    (b : Bool) (es : List AgentEvent) → all_inner es ≡ true → all_inner (unless b es) ≡ true
all_inner-unless true es h = refl
all_inner-unless false es h = h

all_inner-tool_call_updates :
    (m : AssistantMessage) (index : ℕ) (calls : List ToolCall)
    → all_inner (tool_call_updates m index calls) ≡ true
unfolding tool_call_updates
all_inner-tool_call_updates m index [] = refl
all_inner-tool_call_updates m index (call ∷ calls) = all_inner-tool_call_updates m (suc index) calls

inner-response_end :
    (t : Turn) (m : AssistantMessage) (usage : Option ProviderUsage)
    → all_inner (response_end_events t m usage) ≡ true
unfolding response_end_events
inner-response_end t m usage = all_inner-whenever t.text_started _ _ refl (
    all_inner-whenever t.thinking_started _ _ refl (
      all_inner-append (tool_call_updates m 0 m.tool_calls) _
        (all_inner-tool_call_updates m 0 m.tool_calls) refl))

pub committed-queued :
    (str : JsonObject → String) (ms : List AgentMessage) → committed str (queued_events ms) ≡ ms
unfolding queued_events
committed-queued str [] = refl
committed-queued str (m ∷ ms) = ap (◌∷◌ m) (committed-queued str ms)

module _ {W : Type 0} (env : Environment W) {R : Run W → Run W → Type 0}
    (L : IsTurnRelation env.str_dict R) where
  handle-Respects : (t : Turn) (e : ProviderEvent) → Respects R (handle {W = W} t e)
  unfolding handle
  handle-Respects t (ProviderEvent.response_start model) =
      Respects-bind L.order _ _ (L.emits _ refl refl) (λ _. Respects-pure L.order t)
  handle-Respects t (ProviderEvent.text_delta delta) =
      Respects-bind L.order _ _
        (L.emits _ (committed-unless env.str_dict t.text_started _ refl)
          (all_inner-unless t.text_started _ refl))
        λ _. Respects-bind L.order _ _ (L.emits _ refl refl) (λ _. Respects-pure L.order _)
  handle-Respects t (ProviderEvent.thinking_delta delta) =
      Respects-bind L.order _ _
        (L.emits _ (committed-unless env.str_dict t.thinking_started _ refl)
          (all_inner-unless t.thinking_started _ refl))
        λ _. Respects-bind L.order _ _ (L.emits _ refl refl) (λ _. Respects-pure L.order _)
  handle-Respects t (ProviderEvent.retry notice) =
      Respects-bind L.order _ _ (L.emits _ refl refl) (λ _. Respects-pure L.order t)
  handle-Respects t (ProviderEvent.tool_call call) = Respects-pure L.order t
  handle-Respects t (ProviderEvent.response_end m reason usage) =
      L.commits _ _ _ (committed-response_end env.str_dict t m usage) (inner-response_end t m usage)
        (Respects-pure L.order _)
  handle-Respects t (ProviderEvent.error message retryable details) =
      Respects-bind L.order _ _ (L.emits _ refl refl) (λ _. Respects-pure L.order _)

  handle_all-Respects : (t : Turn) (es : List ProviderEvent) → Respects R (handle_all {W = W} t es)
  unfolding handle_all
  handle_all-Respects t [] = Respects-pure L.order t
  handle_all-Respects t (e ∷ es) =
      Respects-bind L.order _ _ (handle-Respects t e) (λ t'. handle_all-Respects t' es)

  stream_ended-Respects : (e : StreamEnd) (t : Turn) → Respects R (stream_ended {W = W} e t)
  unfolding stream_ended
  stream_ended-Respects ended t = Respects-pure L.order t
  stream_ended-Respects StreamEnd.raised t = Respects-abort L.order _

  asked-Respects : Respects R (asked_with_messages env)
  unfolding asked_with_messages
  asked-Respects = record { at = λ s. (L.asks (env.stream s.messages)).at s }

  pub consume_stream-Respects : Respects R (consume_stream env)
  unfolding consume_stream
  consume_stream-Respects = Respects-bind L.order _ _ asked-Respects λ p.
      Respects-bind L.order _ _ (handle_all-Respects fresh_turn p.events)
        (stream_ended-Respects p.ending)
