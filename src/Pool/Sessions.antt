-- ===== src/Pool/Sessions.antt =====
-- The methods of the pool of tau_coding/agent_pool.py and the invariant of a session, and replacing a
-- session among the others.
use tau_prime.Prelude.{
  ℕ, String, Bool, true, false, Option, none, some, List, [], ◌∷◌, ◌==◌, ◌≡◌, refl, ap, ◌∙◌, sym,
  arith, contains, contains-append, if◌then◌else◌, Bool-cases, inl, inr, Distinct-snoc,
}
use tau_prime.Pool.{stop_session}
use tau_prime.Pool.EventStream.{new_stream, abort}
use tau_prime.Pool.Registered.{
  Phase, awaits_turn, Task, RegisteredSession, is_some, new_session, set_task, run_ids, is_pending,
  is_running, holds_turn, one_if, count, add_run, abort_stream, request_cancel, begin_close,
  dispose,
}
use tau_prime.Pool.Registered.Tasks.{
  running_id, run_ids-set_task, count-append, running_id-append, run_ids-append,
}
use tau_prime.Pool.Registered.Valid.{IsOrdered, IsValid, IsValid-if, new_session-IsValid}

-- A session that is disposed has no task and accepts no work.
abbrev pub IsQuiet : RegisteredSession → Type 0
IsQuiet s = s.disposed ≡ true → s.tasks ≡ []

abbrev pub IsSound : RegisteredSession → Type 0
IsSound s = IsValid s × IsQuiet s

pub new_session-IsSound : (id : String) (owned : Bool) → IsSound (new_session id owned)
new_session-IsSound id owned = (new_session-IsValid id owned, λ h. cc)

pub add_run-IsValid :
    (capacity : ℕ) (id : String) (s : RegisteredSession)
    → contains s.seen_run_ids id ≡ false
    → IsValid s
    → IsValid (add_run capacity id s)
unfolding add_run
add_run-IsValid capacity id s new v =
    let t : Task = record { run_id = id; stream = new_stream capacity; phase = awaits_turn } in
    let apart : (contains (run_ids s.tasks) id ≡ false) =
      elim (Bool-cases (contains (run_ids s.tasks) id)) [
        | inl there ↦ absurd (ground (arith, new, v.order.remembered id there))
        | inr gone ↦ gone
      ] in
    record {
      order = record {
        one_turn = omega (arith, count-append holds_turn s.tasks (t ∷ []), v.order.one_turn);
        is_right = v.order.is_right ∙ sym (running_id-append s.tasks t refl);
        distinct =
            rw (run_ids-append s.tasks (t ∷ []))
              (Distinct-snoc (run_ids s.tasks) id v.order.distinct apart);
        remembered = λ x h. ground (
          arith,
          h,
          ap (λ l. contains l x) (run_ids-append s.tasks (t ∷ [])),
          contains-append (run_ids s.tasks) (id ∷ []) x,
          v.order.remembered x,
        );
        calm = v.order.calm;
      };
      counted = omega (arith, count-append is_pending s.tasks (t ∷ []), v.counted);
      shown = refl;
    }

module _ (f : Task → Task) (keeps : (t : Task) → (f t).run_id ≡ t.run_id)
    (stays : (t : Task) → (f t).phase ≡ t.phase) where
  count-set_task_same :
      (P : Phase → Bool) (ts : List Task) (id : String) → count P (set_task f id ts) ≡ count P ts
  count-set_task_same P [] id = refl
  count-set_task_same P (t ∷ ts) id = elim (Bool-cases (t.run_id == id)) [
    | inl same ↦ rw same (omega (arith, ap (λ p. one_if (P p)) (stays t)))
    | inr other ↦ rw other (omega (arith, count-set_task_same P ts id))
  ]

  running_id-set_task_same :
      (ts : List Task) (id : String) → running_id (set_task f id ts) ≡ running_id ts
  running_id-set_task_same [] id = refl
  running_id-set_task_same (t ∷ ts) id = elim (Bool-cases (t.run_id == id)) [
    | inl same ↦ rw same (rw (stays t) (rw (keeps t) refl))
    | inr other ↦
        rw other (
          ap (λ r. if is_running t.phase then some t.run_id else r)
            (running_id-set_task_same ts id))
  ]

pub count-abort_stream :
    (P : Phase → Bool) (o : Option String) (ts : List Task)
    → count P (abort_stream o ts) ≡ count P ts
count-abort_stream P none ts = refl
count-abort_stream P (some id) ts =
    count-set_task_same (λ t. record t { stream = abort t.stream }) (λ t. refl) (λ t. refl) P ts id

abort_stream-IsOrdered :
    (o : Option String) (ts : List Task) (current : Option String) (cancel_requested : Bool)
    (seen : List String)
    → is_some current ≡ true
    → IsOrdered ts current cancel_requested seen
    → IsOrdered (abort_stream o ts) current true seen
abort_stream-IsOrdered none ts current cancel_requested seen some_current v = record {
  one_turn = v.one_turn;
  is_right = v.is_right;
  distinct = v.distinct;
  remembered = v.remembered;
  calm = λ h. absurd (ground (arith, some_current, h));
}
abort_stream-IsOrdered (some id) ts current cancel_requested seen some_current v =
    let f : Task → Task = λ t. record t { stream = abort t.stream } in
    record {
      one_turn =
          omega (arith, v.one_turn, count-set_task_same f (λ t. refl) (λ t. refl) holds_turn ts id);
      is_right = v.is_right ∙ sym (running_id-set_task_same f (λ t. refl) (λ t. refl) ts id);
      distinct = rw (run_ids-set_task f (λ t. refl) ts id) v.distinct;
      remembered = λ x. rw (run_ids-set_task f (λ t. refl) ts id) (v.remembered x);
      calm = λ h. absurd (ground (arith, some_current, h));
    }

IsValid-if_known :
    (b : Bool) (x y : RegisteredSession)
    → (b ≡ true → IsValid x)
    → IsValid y
    → IsValid (if b then x else y)
IsValid-if_known true x y v w = v refl
IsValid-if_known false x y v w = w

pub request_cancel-IsValid : (s : RegisteredSession) → IsValid s → IsValid (request_cancel s)
unfolding request_cancel
request_cancel-IsValid s v =
    IsValid-if_known (is_some s.current_run_id) _ s
      (λ current. record {
        order =
            abort_stream-IsOrdered s.current_run_id s.tasks s.current_run_id s.cancel_requested
              s.seen_run_ids current v.order;
        counted = v.counted ∙ sym (count-abort_stream is_pending s.current_run_id s.tasks);
        shown = refl;
      })
      v

unaccepting-IsValid :
    (s : RegisteredSession) → IsValid s → IsValid (record s { accepting_new_work = false })
unaccepting-IsValid s v = record { order = v.order; counted = v.counted; shown = v.shown }

pub begin_close-IsValid : (s : RegisteredSession) → IsValid s → IsValid (begin_close s)
unfolding begin_close
begin_close-IsValid s v =
    request_cancel-IsValid (record s { accepting_new_work = false }) (unaccepting-IsValid s v)

pub dispose-IsValid : (s : RegisteredSession) → IsValid s → IsValid (dispose s)
unfolding dispose
dispose-IsValid s v = record { order = v.order; counted = v.counted; shown = refl }

pub stop_session-IsValid : (s : RegisteredSession) → IsValid s → IsValid (stop_session s)
unfolding stop_session
stop_session-IsValid s v = IsValid-if s.disposed s _ v (
    IsValid-if (is_some s.current_run_id) _ _
      (request_cancel-IsValid (record s { accepting_new_work = false }) (unaccepting-IsValid s v))
      (record { order = v.order; counted = v.counted; shown = refl }))
