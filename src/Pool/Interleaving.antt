-- ===== src/Pool/Interleaving.antt =====
-- The actions of the pool of tau_coding/agent_pool.py and its invariant.
use tau_prime.Prelude.{
  ℕ, ◌≤◌, ltb, ◌&&◌, String, Bool, not, ◌||◌, List, [], ◌∷◌, refl, ap, arith, Bool-cases, if_cases,
  inl, inr, All-append, Option-cases,
}
use tau_prime.Pool.{
  pool_closed, session_closed, has_runs, Result, ok, Pool, new_pool, has_tasks, any_tasks,
  find_session, register_session, submit, cancel_current_run, close_session, remove_idle_session,
  begin_shutdown, Action, registers, submits, steps, cancels, closes, removes, disposes, shuts,
  deletes, compacts, ends_compacting, begins_shutdown, ends_shutdown, or_same, or_same_with, act,
  act_all,
}
use tau_prime.Pool.Registered.{
  is_some, new_session, is_running, count, add_run, request_cancel, begin_close, dispose,
}
use tau_prime.Pool.Actions.{step_task}
use tau_prime.Pool.Sessions.{
  IsSound, new_session-IsSound, request_cancel-IsValid, begin_close-IsValid, dispose-IsValid,
}
use tau_prime.Pool.Bound.{
  all_active-append, all_active-delete_session, All-delete_session, IsBounded, step_task-IsSound,
  replaced-IsBounded, IsSound-found,
}
use tau_prime.Pool.Calls.{
  through_guard, through_required, through_guard_with, through_required_with, through_claim,
  add_run-IsSound, active-add_run, active-request_cancel, disposed-request_cancel,
  active-begin_close, disposed-begin_close, still_open-IsSound, stop_all-IsSound, no_tasks,
  no_tasks_found,
}

module _ (max_concurrency : ℕ) where
  close_session-IsBounded :
      (id : String) (p : Pool)
      → IsBounded max_concurrency p
      → IsBounded max_concurrency (or_same p (close_session id p))
  unfolding close_session
  close_session-IsBounded id p b = through_required (IsBounded max_concurrency) p b id _ (λ s found.
      if_cases (λ r. IsBounded max_concurrency (or_same p r)) s.disposed (ok p) _ (λ gone. b)
        (λ open_yet.
          replaced-IsBounded max_concurrency p b id s (begin_close s) p.free found
            (still_open-IsSound s (begin_close s) (disposed-begin_close s) open_yet
              (begin_close-IsValid s (IsSound-found max_concurrency p b id s found).0))
            (omega (arith, active-begin_close s))))

  act-IsBounded :
      (a : Action) (p : Pool) → IsBounded max_concurrency p → IsBounded max_concurrency (act a p)
  unfolding act dispose register_session submit cancel_current_run remove_idle_session
      begin_shutdown
  act-IsBounded (registers id owned) p b =
      elim (Bool-cases (is_some (find_session p.sessions id))) [
        | inl taken ↦ rw taken b
        | inr new ↦ rw new (record {
          sound =
              All-append IsSound p.sessions (new_session id owned ∷ []) b.sound
                (new_session-IsSound id owned, tt);
          permits =
              omega (arith, all_active-append p.sessions (new_session id owned ∷ []), b.permits);
        })
      ]
  act-IsBounded (submits id run_id fresh) p b =
      through_guard_with (IsBounded max_concurrency) p b p.accepting_new_work pool_closed _ (λ _.
        through_required_with (IsBounded max_concurrency) p b id _ (λ s found.
          through_guard_with (IsBounded max_concurrency) p b
            (not (s.disposed || not s.accepting_new_work)) (session_closed id) _
            (λ open_yet.
              through_claim (IsBounded max_concurrency) p b run_id fresh s _ (λ claimed new.
                replaced-IsBounded max_concurrency p b id s (add_run p.capacity claimed s) p.free
                  found
                  (add_run-IsSound p.capacity claimed s new (ground (arith, open_yet))
                    (IsSound-found max_concurrency p b id s found))
                  (omega (arith, active-add_run p.capacity claimed s))))))
  act-IsBounded (steps a id run_id) p b = elim (Option-cases (find_session p.sessions id)) [
    | inl gone ↦ rw gone b
    | inr (s, found) ↦ rw found (
        let kept =
          step_task-IsSound a run_id p.free s (IsSound-found max_concurrency p b id s found) in
        replaced-IsBounded max_concurrency p b id s (step_task a run_id p.free s).0
          (step_task a run_id p.free s).1 found kept.0 kept.1)
  ]
  act-IsBounded (cancels id) p b =
      through_required_with (IsBounded max_concurrency) p b id _ (λ s found.
        through_guard_with (IsBounded max_concurrency) p b (not s.disposed) (session_closed id) _
          (λ open_yet.
            if_cases (λ (r : Result (Pool × Bool)). IsBounded max_concurrency (or_same_with p r))
              (is_some s.current_run_id) _ _
              (λ current.
                replaced-IsBounded max_concurrency p b id s (request_cancel s) p.free found
                  (still_open-IsSound s (request_cancel s) (disposed-request_cancel s)
                    (ground (arith, open_yet))
                    (request_cancel-IsValid s (IsSound-found max_concurrency p b id s found).0))
                  (omega (arith, active-request_cancel s)))
              (λ none_current. b)))
  act-IsBounded (closes id) p b = close_session-IsBounded id p b
  act-IsBounded (removes id) p b = through_required (IsBounded max_concurrency) p b id _ (λ s found.
      through_guard (IsBounded max_concurrency) p b _ has_runs (close_session id p)
        (λ _. close_session-IsBounded id p b))
  act-IsBounded (disposes id) p b = elim (Option-cases (find_session p.sessions id)) [
    | inl gone ↦ rw gone b
    | inr (s, found) ↦ rw found (
        if_cases (IsBounded max_concurrency) (s.accepting_new_work || has_tasks s.tasks) p _
          (λ busy. b)
          (λ through.
            replaced-IsBounded max_concurrency p b id s (dispose s) p.free found
              (
                dispose-IsValid s (IsSound-found max_concurrency p b id s found).0,
                λ gone. no_tasks s.tasks (ground (arith, through)),
              )
              refl))
  ]
  act-IsBounded (shuts id) p b = elim (Option-cases (find_session p.sessions id)) [
    | inl gone ↦ rw gone b
    | inr (s, found) ↦ rw found (
        if_cases (IsBounded max_concurrency) (p.accepting_new_work || any_tasks p.sessions) p _
          (λ waits. b)
          (λ through.
            if_cases (IsBounded max_concurrency) s.disposed p _ (λ already. b)
              (λ open_yet.
                replaced-IsBounded max_concurrency p b id s (dispose s) p.free found
                  (
                    dispose-IsValid s (IsSound-found max_concurrency p b id s found).0,
                    λ gone. no_tasks_found p.sessions id s (ground (arith, through)) found,
                  )
                  refl)))
  ]
  act-IsBounded (deletes id) p b = elim (Option-cases (find_session p.sessions id)) [
    | inl gone ↦ rw gone b
    | inr (s, found) ↦ rw found (
        if_cases (IsBounded max_concurrency) s.disposed _ p
          (λ gone. record {
            sound = All-delete_session IsSound p.sessions id b.sound;
            permits = omega (
              arith,
              all_active-delete_session p.sessions id s found,
              b.permits,
              ap (count is_running) ((IsSound-found max_concurrency p b id s found).1 gone),
            );
          })
          (λ open_yet. b))
  ]
  act-IsBounded begins_shutdown p b =
      if_cases (IsBounded max_concurrency) p.shutdown_complete p _ (λ over. b)
        (λ open_yet. record {
          sound = (stop_all-IsSound p.sessions b.sound).0;
          permits = omega (arith, (stop_all-IsSound p.sessions b.sound).1, b.permits);
        })
  act-IsBounded (compacts id) p b = elim (Option-cases (find_session p.sessions id)) [
    | inl gone ↦ rw gone b
    | inr (s, found) ↦ rw found (
        if_cases (IsBounded max_concurrency)
          (ltb 0 p.free
            && not (is_some s.current_run_id || ltb 0 s.pending_runs || has_tasks s.tasks))
          _ p
          (λ gets.
            let one : (1 ≤ p.free) = ground arith in
            record { sound = b.sound; permits = omega (arith, b.permits, one) })
          (λ waits. b))
  ]
  act-IsBounded ends_compacting p b =
      if_cases (IsBounded max_concurrency) (ltb 0 p.compacting) _ p
        (λ busy.
          let one : (1 ≤ p.compacting) = ground arith in
          record { sound = b.sound; permits = omega (arith, b.permits, one) })
        (λ none_busy. b)
  act-IsBounded ends_shutdown p b = record { sound = b.sound; permits = b.permits }

  act_all-IsBounded :
      (actions : List Action) (p : Pool)
      → IsBounded max_concurrency p
      → IsBounded max_concurrency (act_all actions p)
  act_all-IsBounded [] p b = b
  act_all-IsBounded (a ∷ rest) p b = act_all-IsBounded rest (act a p) (act-IsBounded a p b)

-- However registrations, submissions, cancellations, closes, removals that do not overlap for one
-- id, compactions, a shutdown and the tasks of the runs interleave on a new pool, every permit of
-- the semaphore is free or held by one active run or one compaction, and in every session one task
-- at most holds the turn lock, the current run is the one that is active, the ids of its runs are
-- distinct and remembered, the counter counts the runs that have not begun, the state is that of
-- the other fields, and a closed session has no task.
pub new_pool-IsBounded :
    (max_concurrency event_queue_size : ℕ) (actions : List Action)
    → IsBounded max_concurrency (act_all actions (new_pool max_concurrency event_queue_size))
new_pool-IsBounded max_concurrency event_queue_size actions =
    act_all-IsBounded max_concurrency actions (new_pool max_concurrency event_queue_size)
      (record { sound = tt; permits = omega arith })
