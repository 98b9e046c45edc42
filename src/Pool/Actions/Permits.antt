-- ===== src/Pool/Actions/Permits.antt =====
-- The stretches of a task of tau_coding/agent_pool.py and the permits of the semaphore.
use tau_prime.Prelude.{
  ℕ, ◌+◌, ◌-◌, String, Bool, true, false, some, ◌≡◌, refl, ap, sym, none, arith, if◌then◌else◌,
  Bool-cases, inl, inr, ltb,
}
use tau_prime.Events.{AgentEvent}
use tau_prime.Pool.EventStream.{Put, refused, stored, must_wait, put_result}
use tau_prime.Pool.Registered.{
  Progress, RunResult, Phase, awaits_turn, awaits_permit, awaits_event, awaits_room, returned, Task,
  RegisteredSession, find_task, set_task, is_running, holds_turn, one_if, count, leave, take_turn,
  take_permit, noted, no_progress, Ending, ran_out, was_cancelled, end_run, ended_result, offered,
  interrupted, task_done, in_phase, put_in_stream, unstarted, refresh_state,
}
use tau_prime.Pool.Registered.Tasks.{count-set_task, count-pop_task}
use tau_prime.Pool.Registered.Valid.{left}
use tau_prime.Pool.Actions.{
  TaskAction, takes_turn, takes_permit, resumes, is_interrupted, is_done, receives, ends,
  permits_after, task_step,
}

-- The runs that are active in a session.
abbrev pub active : RegisteredSession → ℕ
active s = count is_running s.tasks

module _ (id : String) (s : RegisteredSession) (t : Task)
    (found : find_task s.tasks id ≡ some t) where
  active-leave :
      (pending_consumed current_run_set : Bool) (r : RunResult) (u : RegisteredSession)
      → u.tasks ≡ s.tasks
      → active (leave pending_consumed current_run_set id r u) + one_if (is_running t.phase)
        ≡ active s
  unfolding leave
  active-leave pending_consumed current_run_set r u same =
      rw same (omega (arith, count-set_task is_running (left r) s.tasks id t found))

  active-set :
      (f : Task → Task)
      → is_running (f t).phase ≡ is_running t.phase
      → count is_running (set_task f id s.tasks) ≡ active s
  active-set f same = omega (arith, count-set_task is_running f s.tasks id t found, ap one_if same)

  active-take_turn : is_running t.phase ≡ false → active (take_turn id s) ≡ active s
  unfolding take_turn
  active-take_turn rests =
      elim (s.accepting_new_work)
        as (λ b.
          active (
            if b
            then record s { tasks = set_task (in_phase awaits_permit) id s.tasks }
            else leave true false id (unstarted none)
                (refresh_state (record s { pending_runs = s.pending_runs - 1 })))
          ≡ active s) [
            | true ↦ active-set (in_phase awaits_permit) (sym rests)
            | false ↦ omega (
              arith,
              active-leave true false (unstarted none)
                  (refresh_state (record s { pending_runs = s.pending_runs - 1 })) refl,
              ap one_if rests,
            )
          ]

  permits-take_permit :
      (free : ℕ)
      → is_running t.phase ≡ false
      → ltb 0 free ≡ true
      → (if s.accepting_new_work then free - 1 else free) + active (take_permit id s)
        ≡ free + active s
  unfolding take_permit
  permits-take_permit free rests some_free =
      elim (s.accepting_new_work)
        as (λ b.
          (if b then free - 1 else free)
            + active (
                if b
                then refresh_state (record s {
                  pending_runs = s.pending_runs - 1;
                  current_run_id = some id;
                  last_run_id = some id;
                  cancel_requested = false;
                  tasks = set_task (in_phase (awaits_event no_progress)) id s.tasks;
                })
                else leave true false id (unstarted none)
                    (refresh_state (record s { pending_runs = s.pending_runs - 1 })))
          ≡ free + active s) [
            | true ↦ ground (
              arith,
              some_free,
              count-set_task is_running (in_phase (awaits_event no_progress)) s.tasks id t found,
              ap one_if rests,
            )
            | false ↦ omega (
              arith,
              active-leave true false (unstarted none)
                  (refresh_state (record s { pending_runs = s.pending_runs - 1 })) refl,
              ap one_if rests,
            )
          ]

  active-end_run :
      (ending : Ending) (p : Progress)
      → is_running t.phase ≡ true
      → active (end_run id ending p s) + 1 ≡ active s
  active-end_run ending p runs = omega (
    arith,
    active-leave true true (ended_result ending s.cancel_requested p) s refl,
    ap one_if runs,
  )

  permits-offered :
      (e : AgentEvent) (p : Progress) (r : Put) (free : ℕ)
      → is_running t.phase ≡ true
      → permits_after r free + active (offered id e p r s) ≡ free + active s
  permits-offered e p refused free runs = omega (arith, active-end_run ran_out p runs)
  permits-offered e p stored free runs =
      omega (arith, active-set (put_in_stream e (awaits_event p)) (sym runs))
  permits-offered e p must_wait free runs =
      omega (arith, active-set (in_phase (awaits_room e p)) (sym runs))

  permits-interrupted :
      (p : Phase) (free : ℕ)
      → t.phase ≡ p
      → (if is_running p then free + 1 else free) + active (interrupted id p s) ≡ free + active s
  permits-interrupted awaits_turn free at = omega (
    arith,
    active-leave false false (unstarted (some "CancelledError")) s refl,
    ap (λ p. one_if (is_running p)) at,
  )
  permits-interrupted awaits_permit free at = omega (
    arith,
    active-leave false false (unstarted (some "CancelledError")) s refl,
    ap (λ p. one_if (is_running p)) at,
  )
  permits-interrupted (awaits_event p) free at =
      omega (arith, active-end_run (was_cancelled "CancelledError") p (ap is_running at))
  permits-interrupted (awaits_room e p) free at =
      omega (arith, active-end_run (was_cancelled "CancelledError") p (ap is_running at))
  permits-interrupted (returned r) free at = refl

  active-task_done : is_running t.phase ≡ false → active (task_done id s) ≡ active s
  unfolding task_done
  active-task_done rests =
      omega (arith, count-pop_task is_running s.tasks id t found, ap one_if rests)

  -- Whatever a task does, the permits that are free and the active runs stay as many.
  pub permits-task_step :
      (a : TaskAction) (p : Phase) (free : ℕ)
      → t.phase ≡ p
      → (task_step a id t p free s).1 + active (task_step a id t p free s).0 ≡ free + active s
  unfolding task_step
  permits-task_step takes_turn awaits_turn free at =
      elim (Bool-cases (ltb (count holds_turn s.tasks) 1)) [
        | inl nobody ↦ rw nobody (omega (arith, active-take_turn (ap is_running at)))
        | inr taken ↦ rw taken refl
      ]
  permits-task_step takes_permit awaits_permit free at = elim (Bool-cases (ltb 0 free)) [
    | inl some_free ↦ rw some_free (permits-take_permit free (ap is_running at) some_free)
    | inr none_free ↦ rw none_free refl
  ]
  permits-task_step (receives e) (awaits_event p) free at =
      permits-offered e (noted e p) (put_result t.stream) free (ap is_running at)
  permits-task_step resumes (awaits_room e p) free at =
      permits-offered e p (put_result t.stream) free (ap is_running at)
  permits-task_step (ends ending) (awaits_event p) free at =
      omega (arith, active-end_run ending p (ap is_running at))
  permits-task_step is_interrupted p free at = permits-interrupted p free at
  permits-task_step is_done (returned r) free at =
      omega (arith, active-task_done (ap is_running at))
  permits-task_step a p free at = refl
