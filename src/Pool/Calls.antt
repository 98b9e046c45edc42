-- ===== src/Pool/Calls.antt =====
-- What single calls of the pool of tau_coding/agent_pool.py do to its sessions and permits.
use tau_prime.Prelude.{
  ℕ, String, Bool, true, false, ◌||◌, Option, none, some, List, [], ◌∷◌, ◌≡◌, ◌==◌, refl, sym, ap,
  ◌∙◌, arith, contains, Bool-cases, if_cases, inl, inr, All, Option-cases,
}
use tau_prime.Session.Jsonl.{is_blank}
use tau_prime.Pool.{
  PoolError, Result, ◌>>=◌, Pool, has_tasks, any_tasks, find_session, stop_session, stop_all, guard,
  require_session, claim_run_id, or_same, or_same_with,
}
use tau_prime.Pool.Registered.{
  Task, RegisteredSession, is_some, run_ids, is_running, add_run, request_cancel, begin_close,
  refresh_state, awaits_turn,
}
use tau_prime.Pool.EventStream.{new_stream}
use tau_prime.Pool.Registered.Valid.{IsValid}
use tau_prime.Pool.Registered.Tasks.{count-append}
use tau_prime.Pool.Actions.Permits.{active}
use tau_prime.Pool.Sessions.{IsSound, add_run-IsValid, count-abort_stream, begin_close-IsValid}
use tau_prime.Pool.Bound.{all_active}

-- What holds of the pool before a call holds after it, if it does where the call gets through.
module _ (P : Pool → Type 0) (p : Pool) (same : P p) where
  pub through_guard :
      (b : Bool) (e : PoolError) (r : Result Pool)
      → (b ≡ true → P (or_same p r))
      → P (or_same p (guard b e r))
  through_guard true e r h = h refl
  through_guard false e r h = same

  pub through_required :
      (id : String) (f : RegisteredSession → Result Pool)
      → ((s : RegisteredSession) → find_session p.sessions id ≡ some s → P (or_same p (f s)))
      → P (or_same p (require_session id p >>= f))
  through_required id f h = elim (Option-cases (find_session p.sessions id)) [
    | inl gone ↦ rw gone same
    | inr (s, found) ↦ rw found (h s found)
  ]

  module _ {A : Type 0} where
    pub through_guard_with :
        (b : Bool) (e : PoolError) (r : Result (Pool × A))
        → (b ≡ true → P (or_same_with p r))
        → P (or_same_with p (guard b e r))
    through_guard_with true e r h = h refl
    through_guard_with false e r h = same

    pub through_required_with :
        (id : String) (f : RegisteredSession → Result (Pool × A))
        → ((s : RegisteredSession) → find_session p.sessions id ≡ some s → P (or_same_with p (f s)))
        → P (or_same_with p (require_session id p >>= f))
    through_required_with id f h = elim (Option-cases (find_session p.sessions id)) [
      | inl gone ↦ rw gone same
      | inr (s, found) ↦ rw found (h s found)
    ]

    pub through_claim :
        (run_id : Option String) (fresh : String) (s : RegisteredSession)
        (f : String → Result (Pool × A))
        → ((id : String) → contains s.seen_run_ids id ≡ false → P (or_same_with p (f id)))
        → P (or_same_with p (claim_run_id run_id fresh s >>= f))
    through_claim none fresh s f h =
        elim (Bool-cases (contains (run_ids s.tasks) fresh || contains s.seen_run_ids fresh)) [
          | inl old ↦ rw old same
          | inr new ↦ rw new (h fresh (ground (arith, new)))
        ]
    through_claim (some id) fresh s f h = elim (Bool-cases (is_blank id)) [
      | inl blank ↦ rw blank same
      | inr printed ↦
          rw printed
            (elim (Bool-cases (contains (run_ids s.tasks) id || contains s.seen_run_ids id)) [
              | inl old ↦ rw old same
              | inr new ↦ rw new (h id (ground (arith, new)))
            ])
    ]

pub add_run-IsSound :
    (capacity : ℕ) (id : String) (s : RegisteredSession)
    → contains s.seen_run_ids id ≡ false
    → s.disposed ≡ false
    → IsSound s
    → IsSound (add_run capacity id s)
unfolding add_run
add_run-IsSound capacity id s new open_yet v =
    (add_run-IsValid capacity id s new v.0, λ gone. absurd (ground (arith, gone, open_yet)))

pub active-add_run :
    (capacity : ℕ) (id : String) (s : RegisteredSession) → active (add_run capacity id s) ≡ active s
unfolding add_run
active-add_run capacity id s = omega (
  arith,
  count-append is_running s.tasks
      ((record { run_id = id; stream = new_stream capacity; phase = awaits_turn }) ∷ []),
)

pub active-request_cancel : (s : RegisteredSession) → active (request_cancel s) ≡ active s
unfolding request_cancel
active-request_cancel s = ground (arith, count-abort_stream is_running s.current_run_id s.tasks)

pub disposed-request_cancel : (s : RegisteredSession) → (request_cancel s).disposed ≡ s.disposed
unfolding request_cancel
disposed-request_cancel s = ground arith

pub active-begin_close : (s : RegisteredSession) → active (begin_close s) ≡ active s
unfolding begin_close
active-begin_close s = active-request_cancel (record s { accepting_new_work = false })

pub disposed-begin_close : (s : RegisteredSession) → (begin_close s).disposed ≡ s.disposed
unfolding begin_close
disposed-begin_close s = disposed-request_cancel (record s { accepting_new_work = false })

-- A change that keeps a session that is not disposed as it is in that.
pub still_open-IsSound :
    (s u : RegisteredSession) → u.disposed ≡ s.disposed → s.disposed ≡ false → IsValid u → IsSound u
still_open-IsSound s u same open_yet v = (v, λ gone. absurd (ground (arith, same, open_yet, gone)))

pub stop_session-IsSound :
    (s : RegisteredSession)
    → IsSound s
    → IsSound (stop_session s) × (active (stop_session s) ≡ active s)
unfolding stop_session begin_close
stop_session-IsSound s v =
    if_cases (λ u. IsSound u × (active u ≡ active s)) s.disposed s _ (λ gone. (v, refl))
      (λ open_yet.
        if_cases (λ u. IsSound u × (active u ≡ active s)) (is_some s.current_run_id) _ _
          (λ current. (
            still_open-IsSound s (begin_close s) (disposed-begin_close s) open_yet
                (begin_close-IsValid s v.0),
            active-begin_close s,
          ))
          (λ none_current. (
            still_open-IsSound s (refresh_state (record s { accepting_new_work = false })) refl
                open_yet (record { order = v.0.order; counted = v.0.counted; shown = refl }),
            refl,
          )))

pub stop_all-IsSound :
    (ss : List RegisteredSession)
    → All IsSound ss
    → All IsSound (stop_all ss) × (all_active (stop_all ss) ≡ all_active ss)
stop_all-IsSound [] a = (tt, refl)
stop_all-IsSound (s ∷ ss) a =
    let one = stop_session-IsSound s a.0 in
    let others = stop_all-IsSound ss a.1 in ((one.0, others.0), omega (arith, one.1, others.1))

pub no_tasks : (ts : List Task) → has_tasks ts ≡ false → ts ≡ []
no_tasks [] h = refl
no_tasks (t ∷ ts) h = cc

-- Where no session has a task, the one that is found has none.
pub no_tasks_found :
    (ss : List RegisteredSession) (id : String) (s : RegisteredSession)
    → any_tasks ss ≡ false
    → find_session ss id ≡ some s
    → s.tasks ≡ []
no_tasks_found [] id s h found = cc
no_tasks_found (x ∷ ss) id s h found = elim (Bool-cases (x.session_id == id)) [
  | inl same ↦
      let e : (some x ≡ some s) = rw same at found in
      let mine : (x ≡ s) = cc e in
      ap (λ (u : RegisteredSession). u.tasks) (sym mine) ∙ no_tasks x.tasks (ground arith)
  | inr other ↦ no_tasks_found ss id s (ground arith) (rw other at found)
]
