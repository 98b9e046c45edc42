-- ===== src/Harness/Repair/Complete.antt =====
-- On the transcripts that `_append_interrupted_tool_results` of tau_agent/harness.py repairs.
use tau_prime.Prelude.{
  ◌≡◌, refl, sym, ap, ap₂, ◌∙◌, String, true, not, ◌&&◌, ◌||◌, List, [], ◌∷◌, ◌++◌, append-nil,
  append_assoc, contains, contains-append, Distinct, Distinct-append, eq_iff, eq_refl, arith,
}
use tau_prime.Messages.{ToolCall, AgentMessage, user, assistant, tool}
use tau_prime.Harness.Repair.{returned_ids, repair_calls, repair_messages, repaired}

-- The ids of the calls that assistant messages make, in order.
pub call_ids : List ToolCall → List String
call_ids [] = []
call_ids (call ∷ calls) = call.id ∷ call_ids calls

pub requested_ids : List AgentMessage → List String
requested_ids [] = []
requested_ids (assistant m ∷ ms) = call_ids m.tool_calls ++ requested_ids ms
requested_ids (user m ∷ ms) = requested_ids ms
requested_ids (tool m ∷ ms) = requested_ids ms

returned_ids-append :
    (xs ys : List AgentMessage) → returned_ids (xs ++ ys) ≡ returned_ids xs ++ returned_ids ys
unfolding returned_ids
returned_ids-append [] ys = refl
returned_ids-append (tool m ∷ xs) ys = ap (◌∷◌ m.tool_call_id) (returned_ids-append xs ys)
returned_ids-append (user m ∷ xs) ys = returned_ids-append xs ys
returned_ids-append (assistant m ∷ xs) ys = returned_ids-append xs ys

-- The inner loop adds the calls that were not answered, and knows them as answered from then on.
repair_calls-contains :
    (returned : List String) (calls : List ToolCall) (x : String)
    → (contains (repair_calls returned calls).1 x
        ≡ (contains (call_ids calls) x || contains returned x))
      × (contains (returned_ids (repair_calls returned calls).0) x
          ≡ (contains (call_ids calls) x && not (contains returned x)))
unfolding repair_calls call_ids returned_ids
repair_calls-contains returned [] x = (refl, refl)
repair_calls-contains returned (call ∷ calls) x =
    let skip = repair_calls-contains returned calls x in
    let go = repair_calls-contains (call.id ∷ returned) calls x in
    (ground (arith, skip, go, eq_iff call.id x), ground (arith, skip, go, eq_iff call.id x))

repair_calls-Distinct :
    (returned : List String) (calls : List ToolCall)
    → Distinct (returned_ids (repair_calls returned calls).0)
unfolding repair_calls returned_ids
repair_calls-Distinct returned [] = tt
repair_calls-Distinct returned (call ∷ calls) = ground (
  arith,
  repair_calls-Distinct returned calls,
  repair_calls-Distinct (call.id ∷ returned) calls,
  repair_calls-contains (call.id ∷ returned) calls call.id,
  eq_refl call.id,
)

repair_messages-contains :
    (returned : List String) (ms : List AgentMessage) (x : String)
    → contains (returned_ids (repair_messages returned ms)) x
      ≡ (contains (requested_ids ms) x && not (contains returned x))
unfolding repair_messages requested_ids
repair_messages-contains returned [] x = unfold returned_ids in refl
repair_messages-contains returned (user m ∷ ms) x = repair_messages-contains returned ms x
repair_messages-contains returned (tool m ∷ ms) x = repair_messages-contains returned ms x
repair_messages-contains returned (assistant m ∷ ms) x =
    let c = repair_calls returned m.tool_calls in
    let rest = repair_messages c.1 ms in
    ground (
      arith,
      ap (λ l. contains l x) (returned_ids-append c.0 rest),
      contains-append (returned_ids c.0) (returned_ids rest) x,
      contains-append (call_ids m.tool_calls) (requested_ids ms) x,
      repair_calls-contains returned m.tool_calls x,
      repair_messages-contains c.1 ms x,
    )

repair_messages-Distinct :
    (returned : List String) (ms : List AgentMessage)
    → Distinct (returned_ids (repair_messages returned ms))
unfolding repair_messages
repair_messages-Distinct returned [] = unfold returned_ids in tt
repair_messages-Distinct returned (user m ∷ ms) = repair_messages-Distinct returned ms
repair_messages-Distinct returned (tool m ∷ ms) = repair_messages-Distinct returned ms
repair_messages-Distinct returned (assistant m ∷ ms) =
    let c = repair_calls returned m.tool_calls in
    rw (returned_ids-append c.0 (repair_messages c.1 ms)) (
      Distinct-append (returned_ids c.0) (returned_ids (repair_messages c.1 ms))
        (repair_calls-Distinct returned m.tool_calls) (repair_messages-Distinct c.1 ms)
        λ x h.
          ground (
            arith,
            repair_calls-contains returned m.tool_calls x,
            repair_messages-contains c.1 ms x,
          ))

requested_ids-append :
    (xs ys : List AgentMessage) → requested_ids (xs ++ ys) ≡ requested_ids xs ++ requested_ids ys
unfolding requested_ids
requested_ids-append [] ys = refl
requested_ids-append (assistant m ∷ xs) ys =
    ap (◌++◌ (call_ids m.tool_calls)) (requested_ids-append xs ys)
    ∙ sym (append_assoc (call_ids m.tool_calls) (requested_ids xs) (requested_ids ys))
requested_ids-append (user m ∷ xs) ys = requested_ids-append xs ys
requested_ids-append (tool m ∷ xs) ys = requested_ids-append xs ys

requested-repair_calls :
    (returned : List String) (calls : List ToolCall)
    → requested_ids (repair_calls returned calls).0 ≡ []
unfolding repair_calls requested_ids
requested-repair_calls returned [] = refl
requested-repair_calls returned (call ∷ calls) = ground (
  arith,
  requested-repair_calls returned calls,
  requested-repair_calls (call.id ∷ returned) calls,
)

requested-repair_messages :
    (returned : List String) (ms : List AgentMessage)
    → requested_ids (repair_messages returned ms) ≡ []
unfolding repair_messages
requested-repair_messages returned [] = unfold requested_ids in refl
requested-repair_messages returned (user m ∷ ms) = requested-repair_messages returned ms
requested-repair_messages returned (tool m ∷ ms) = requested-repair_messages returned ms
requested-repair_messages returned (assistant m ∷ ms) =
    let c = repair_calls returned m.tool_calls in
    requested_ids-append c.0 (repair_messages c.1 ms)
    ∙ ap₂ ◌++◌ (requested-repair_calls returned m.tool_calls) (requested-repair_messages c.1 ms)

-- Every tool call in the transcript has a tool message that answers it.
abbrev pub AllAnswered : List AgentMessage → Type 0
AllAnswered ms =
    (x : String) → contains (requested_ids ms) x ≡ true → contains (returned_ids ms) x ≡ true

-- What a repair appended.
pub record IsRepair (ms repair : List AgentMessage) : Type 0 where
  pub added : List AgentMessage
  pub kept : repair ≡ ms ++ added
  pub once : Distinct (returned_ids added)
  pub missing :
      (x : String)
      → contains (returned_ids added) x
        ≡ (contains (requested_ids ms) x && not (contains (returned_ids ms) x))
  pub asks_nothing : requested_ids added ≡ []

-- The repair keeps the transcript and appends to it exactly one tool message for each id that is
-- called and not answered, whatever the transcript; it adds no call.
pub repaired-IsRepair : (ms : List AgentMessage) → IsRepair ms (repaired ms)
unfolding repaired
repaired-IsRepair ms = record {
  added = repair_messages (returned_ids ms) ms;
  kept = refl;
  once = repair_messages-Distinct (returned_ids ms) ms;
  missing = repair_messages-contains (returned_ids ms) ms;
  asks_nothing = requested-repair_messages (returned_ids ms) ms;
}

-- After a repair every tool call is answered.
pub repaired-AllAnswered : (ms : List AgentMessage) → AllAnswered (repaired ms)
unfolding repaired
repaired-AllAnswered ms x h =
    let added = repair_messages (returned_ids ms) ms in
    ground (
      arith,
      ap (λ l. contains l x) (requested_ids-append ms added),
      ap (λ l. contains l x) (returned_ids-append ms added),
      contains-append (requested_ids ms) (requested_ids added) x,
      contains-append (returned_ids ms) (returned_ids added) x,
      ap (λ l. contains l x) (requested-repair_messages (returned_ids ms) ms),
      repair_messages-contains (returned_ids ms) ms x,
    )

no_repair_calls :
    (returned : List String) (calls : List ToolCall)
    → ((x : String) → contains (call_ids calls) x ≡ true → contains returned x ≡ true)
    → repair_calls returned calls ≡ ([], returned)
unfolding repair_calls call_ids
no_repair_calls returned [] h = refl
no_repair_calls returned (call ∷ calls) h =
    ground (
      arith,
      h call.id,
      eq_refl call.id,
      no_repair_calls returned calls (λ x k. h x (ground arith)),
    )

no_repair :
    (returned : List String) (ms : List AgentMessage)
    → ((x : String) → contains (requested_ids ms) x ≡ true → contains returned x ≡ true)
    → repair_messages returned ms ≡ []
unfolding repair_messages requested_ids
no_repair returned [] h = refl
no_repair returned (user m ∷ ms) h = no_repair returned ms h
no_repair returned (tool m ∷ ms) h = no_repair returned ms h
no_repair returned (assistant m ∷ ms) h =
    rw
      (no_repair_calls returned m.tool_calls
        (λ x k. h x (ground (arith, contains-append (call_ids m.tool_calls) (requested_ids ms) x))))
      (no_repair returned ms
        (λ x k. h x (ground (arith, contains-append (call_ids m.tool_calls) (requested_ids ms) x))))

-- A transcript whose calls are all answered is left alone.
pub repaired_of_AllAnswered : (ms : List AgentMessage) → AllAnswered ms → repaired ms ≡ ms
unfolding repaired
repaired_of_AllAnswered ms h = ap (◌++◌ ms) (no_repair (returned_ids ms) ms h) ∙ append-nil ms

-- A second repair changes nothing.
pub repaired-repaired : (ms : List AgentMessage) → repaired (repaired ms) ≡ repaired ms
repaired-repaired ms = repaired_of_AllAnswered (repaired ms) (repaired-AllAnswered ms)
