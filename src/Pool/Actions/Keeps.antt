-- ===== src/Pool/Actions/Keeps.antt =====
-- The stretches of a task of tau_coding/agent_pool.py and the invariant of its session.
use tau_prime.Prelude.{
  ℕ, ◌-◌, ◌≤◌, String, true, false, none, some, ◌≡◌, refl, ap, ◌∙◌, sym, arith, Bool-cases, inl,
  inr, ltb,
}
use tau_prime.Events.{AgentEvent}
use tau_prime.Pool.EventStream.{Put, refused, stored, must_wait, put_result}
use tau_prime.Pool.Registered.{
  Progress, Phase, awaits_turn, awaits_permit, awaits_event, awaits_room, returned, Task,
  RegisteredSession, find_task, set_task, is_pending, is_running, holds_turn, one_if, count, leave,
  take_turn, take_permit, noted, no_progress, Ending, ran_out, was_cancelled, end_run, ended_result,
  offered, interrupted, task_done, in_phase, put_in_stream, unstarted, refresh_state,
}
use tau_prime.Pool.Actions.{
  TaskAction, takes_turn, takes_permit, resumes, is_interrupted, is_done, receives, ends, task_step,
}
use tau_prime.Pool.Registered.Tasks.{
  find_task-set_task, run_ids-set_task, count-set_task, count_running-le, running_id-found,
  count-found, count-pop_task, running_id-pop_task, contains-pop_task, pop_task-Distinct,
}
use tau_prime.Pool.Registered.Valid.{IsValid, IsValid-if, set_task-IsOrdered, leave-IsValid}

running-begun : (p : Phase) → is_running p ≡ true → is_pending p ≡ false
running-begun awaits_turn h = cc
running-begun awaits_permit h = cc
running-begun (awaits_event p) h = refl
running-begun (awaits_room e p) h = refl
running-begun (returned r) h = refl

module _ (id : String) (s : RegisteredSession) (t : Task) (found : find_task s.tasks id ≡ some t)
    (v : IsValid s) where
  -- A run that has not begun gives up.
  give_up-IsValid :
      is_pending t.phase ≡ true
      → is_running t.phase ≡ false
      → IsValid (
          leave true false id
            (unstarted none)
            (refresh_state (record s { pending_runs = s.pending_runs - 1 })))
  give_up-IsValid waits rests =
      leave-IsValid true false id (unstarted none)
        (refresh_state (record s { pending_runs = s.pending_runs - 1 })) t found v.order
        (omega (arith, v.counted, ap one_if waits, count-found is_pending s.tasks id t found)) rests

  take_turn-IsValid :
      t.phase ≡ awaits_turn → count holds_turn s.tasks ≡ 0 → IsValid (take_turn id s)
  unfolding take_turn
  take_turn-IsValid waits free =
      IsValid-if s.accepting_new_work _ _
        (record {
          order =
              set_task-IsOrdered s.tasks s.current_run_id s.cancel_requested s.seen_run_ids v.order
                (in_phase awaits_permit) (λ u. refl) id t found (sym (ap is_running waits))
                (omega (
                  arith,
                  count-set_task holds_turn (in_phase awaits_permit) s.tasks id t found,
                  free,
                ));
          counted = omega (
            arith,
            count-set_task is_pending (in_phase awaits_permit) s.tasks id t found,
            v.counted,
            ap (λ p. one_if (is_pending p)) waits,
          );
          shown = v.shown;
        })
        (give_up-IsValid (ap is_pending waits) (ap is_running waits))

  take_permit-IsValid : t.phase ≡ awaits_permit → IsValid (take_permit id s)
  unfolding take_permit
  take_permit-IsValid waits =
      let begun : Task → Task = in_phase (awaits_event no_progress) in
      let held = count-set_task holds_turn begun s.tasks id t found in
      let one : (count holds_turn (set_task begun id s.tasks) ≤ 1) =
        omega (arith, held, v.order.one_turn, ap (λ p. one_if (holds_turn p)) waits) in
      IsValid-if s.accepting_new_work _ _
        (record {
          order = record {
            one_turn = one;
            is_right = sym (
                running_id-found (set_task begun id s.tasks) id (begun t)
                  (find_task-set_task begun (λ u. refl) s.tasks id t found) refl
                  (omega (arith, one, count_running-le (set_task begun id s.tasks))));
            distinct = rw (run_ids-set_task begun (λ u. refl) s.tasks id) v.order.distinct;
            remembered =
                λ x. rw (run_ids-set_task begun (λ u. refl) s.tasks id) (v.order.remembered x);
            calm = λ h. refl;
          };
          counted = omega (
            arith,
            count-set_task is_pending begun s.tasks id t found,
            v.counted,
            ap (λ p. one_if (is_pending p)) waits,
          );
          shown = refl;
        })
        (give_up-IsValid (ap is_pending waits) (ap is_running waits))

  end_run-IsValid :
      (ending : Ending) (p : Progress) → is_running t.phase ≡ true → IsValid (end_run id ending p s)
  end_run-IsValid ending p runs =
      leave-IsValid true true id (ended_result ending s.cancel_requested p) s t found v.order
        (omega (arith, v.counted, ap one_if (running-begun t.phase runs))) runs

  -- A running task goes on running.
  goes_on-IsValid :
      (f : Task → Task) (keeps : (u : Task) → (f u).run_id ≡ u.run_id)
      → is_running t.phase ≡ true
      → is_running (f t).phase ≡ true
      → holds_turn t.phase ≡ holds_turn (f t).phase
      → IsValid (record s { tasks = set_task f id s.tasks })
  goes_on-IsValid f keeps runs still same = record {
    order =
        set_task-IsOrdered s.tasks s.current_run_id s.cancel_requested s.seen_run_ids v.order f
          keeps id t found (still ∙ sym runs)
          (omega (
            arith,
            count-set_task holds_turn f s.tasks id t found,
            ap one_if same,
            v.order.one_turn,
          ));
    counted = omega (
      arith,
      count-set_task is_pending f s.tasks id t found,
      v.counted,
      ap one_if (running-begun t.phase runs),
      ap one_if (running-begun (f t).phase still),
    );
    shown = v.shown;
  }

  offered-IsValid :
      (e : AgentEvent) (p : Progress) (r : Put)
      → is_running t.phase ≡ true
      → holds_turn t.phase ≡ true
      → IsValid (offered id e p r s)
  offered-IsValid e p refused runs holds = end_run-IsValid ran_out p runs
  offered-IsValid e p stored runs holds =
      goes_on-IsValid (put_in_stream e (awaits_event p)) (λ u. refl) runs refl holds
  offered-IsValid e p must_wait runs holds =
      goes_on-IsValid (in_phase (awaits_room e p)) (λ u. refl) runs refl holds

  interrupted-IsValid : (p : Phase) → t.phase ≡ p → IsValid (interrupted id p s)
  interrupted-IsValid awaits_turn at =
      leave-IsValid false false id (unstarted (some "CancelledError")) s t found v.order
        (omega (
          arith,
          v.counted,
          ap (λ p. one_if (is_pending p)) at,
          count-found is_pending s.tasks id t found,
        ))
        (ap is_running at)
  interrupted-IsValid awaits_permit at =
      leave-IsValid false false id (unstarted (some "CancelledError")) s t found v.order
        (omega (
          arith,
          v.counted,
          ap (λ p. one_if (is_pending p)) at,
          count-found is_pending s.tasks id t found,
        ))
        (ap is_running at)
  interrupted-IsValid (awaits_event p) at =
      end_run-IsValid (was_cancelled "CancelledError") p (ap is_running at)
  interrupted-IsValid (awaits_room e p) at =
      end_run-IsValid (was_cancelled "CancelledError") p (ap is_running at)
  interrupted-IsValid (returned r) at = v

  task_done-IsValid :
      is_running t.phase ≡ false → is_pending t.phase ≡ false → IsValid (task_done id s)
  unfolding task_done
  task_done-IsValid rests begun = record {
    order = record {
      one_turn = omega (arith, v.order.one_turn, count-pop_task holds_turn s.tasks id t found);
      is_right = v.order.is_right ∙ sym (running_id-pop_task s.tasks id t found rests);
      distinct = pop_task-Distinct s.tasks id v.order.distinct;
      remembered = λ x h. v.order.remembered x (contains-pop_task s.tasks id x h);
      calm = v.order.calm;
    };
    counted =
        omega (arith, v.counted, count-pop_task is_pending s.tasks id t found, ap one_if begun);
    shown = refl;
  }

  pub task_step-IsValid :
      (a : TaskAction) (p : Phase) (free : ℕ) → t.phase ≡ p → IsValid (task_step a id t p free s).0
  unfolding task_step
  task_step-IsValid takes_turn awaits_turn free at =
      elim (Bool-cases (ltb (count holds_turn s.tasks) 1)) [
        | inl nobody ↦ rw nobody (take_turn-IsValid at (ground (arith, nobody)))
        | inr taken ↦ rw taken v
      ]
  task_step-IsValid takes_permit awaits_permit free at = elim (Bool-cases (ltb 0 free)) [
    | inl some_free ↦ rw some_free (take_permit-IsValid at)
    | inr none_free ↦ rw none_free v
  ]
  task_step-IsValid (receives e) (awaits_event p) free at =
      offered-IsValid e (noted e p) (put_result t.stream) (ap is_running at) (ap holds_turn at)
  task_step-IsValid resumes (awaits_room e p) free at =
      offered-IsValid e p (put_result t.stream) (ap is_running at) (ap holds_turn at)
  task_step-IsValid (ends ending) (awaits_event p) free at =
      end_run-IsValid ending p (ap is_running at)
  task_step-IsValid is_interrupted p free at = interrupted-IsValid p at
  task_step-IsValid is_done (returned r) free at =
      task_done-IsValid (ap is_running at) (ap is_pending at)
  task_step-IsValid a p free at = v
