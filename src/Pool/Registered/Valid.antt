-- ===== src/Pool/Registered/Valid.antt =====
-- The invariant of a session in the pool of tau_coding/agent_pool.py, and the steps that end a run.
use tau_prime.Prelude.{
  ◌+◌, ◌-◌, ◌≤◌, String, Bool, true, false, Option, none, some, List, ◌≡◌, refl, ap, ◌∙◌, sym,
  arith, contains, Distinct, eq_refl, if◌then◌else◌,
}
use tau_prime.Pool.EventStream.{close}
use tau_prime.Pool.Registered.{
  RunResult, returned, Task, RegisteredSession, state_of, new_session, find_task, set_task, run_ids,
  is_pending, is_running, holds_turn, one_if, count, leave,
}
use tau_prime.Pool.Registered.Tasks.{
  running_id, run_ids-set_task, running_id-set_task, count-set_task, count_running-le,
  running_id-none, running_id-found,
}

-- One task at most holds the turn lock, the current run is the one that runs, ids stand once among
-- the tasks and are all remembered, and a request to cancel is one to cancel the current run.
pub record IsOrdered (tasks : List Task) (current : Option String) (cancel_requested : Bool)
    (seen : List String) : Type 0 where
  pub one_turn : count holds_turn tasks ≤ 1
  pub is_right : current ≡ running_id tasks
  pub distinct : Distinct (run_ids tasks)
  pub remembered : (x : String) → contains (run_ids tasks) x ≡ true → contains seen x ≡ true
  pub calm : current ≡ none → cancel_requested ≡ false

-- Also, the counter counts the runs that have not begun, and the state is that of the other fields.
pub record IsValid (s : RegisteredSession) : Type 0 where
  pub order : IsOrdered s.tasks s.current_run_id s.cancel_requested s.seen_run_ids
  pub counted : s.pending_runs ≡ count is_pending s.tasks
  pub shown : s.state ≡ state_of s

pub new_session-IsValid : (id : String) (owned : Bool) → IsValid (new_session id owned)
new_session-IsValid id owned = record {
  order = record {
    one_turn = omega arith;
    is_right = refl;
    distinct = tt;
    remembered = λ x h. cc;
    calm = λ h. refl;
  };
  counted = refl;
  shown = refl;
}

module _ (tasks : List Task) (current : Option String) (cancel_requested : Bool)
    (seen : List String) (v : IsOrdered tasks current cancel_requested seen) (f : Task → Task)
    (keeps : (t : Task) → (f t).run_id ≡ t.run_id) (id : String) (t : Task)
    (found : find_task tasks id ≡ some t) where
  -- A change of a task that keeps whether it runs and does not take the turn lock.
  pub set_task-IsOrdered :
      is_running (f t).phase ≡ is_running t.phase
      → count holds_turn (set_task f id tasks) ≤ 1
      → IsOrdered (set_task f id tasks) current cancel_requested seen
  set_task-IsOrdered same one = record {
    one_turn = one;
    is_right = v.is_right ∙ sym (running_id-set_task f keeps tasks id t found same);
    distinct = rw (run_ids-set_task f keeps tasks id) v.distinct;
    remembered = λ x. rw (run_ids-set_task f keeps tasks id) (v.remembered x);
    calm = v.calm;
  }

  -- The running task is the current one.
  pub current-found : is_running t.phase ≡ true → current ≡ some id
  current-found runs =
      v.is_right
      ∙ running_id-found tasks id t found runs (omega (arith, v.one_turn, count_running-le tasks))

  -- The running task stops.
  pub stopped-IsOrdered :
      is_running t.phase ≡ true
      → is_running (f t).phase ≡ false
      → holds_turn (f t).phase ≡ false
      → IsOrdered (set_task f id tasks) none false seen
  stopped-IsOrdered runs stops lets_go = record {
    one_turn =
        omega (arith, count-set_task holds_turn f tasks id t found, ap one_if lets_go, v.one_turn);
    is_right = sym (
        running_id-none (set_task f id tasks) (
          omega (
            arith,
            count-set_task is_running f tasks id t found,
            ap one_if runs,
            ap one_if stops,
            v.one_turn,
            count_running-le tasks,
          )));
    distinct = rw (run_ids-set_task f keeps tasks id) v.distinct;
    remembered = λ x. rw (run_ids-set_task f keeps tasks id) (v.remembered x);
    calm = λ h. refl;
  }

abbrev pub left : RunResult → Task → Task
left r t = record t { stream = close t.stream; phase = returned r }

pub leave-IsValid :
    (pending_consumed current_run_set : Bool) (id : String) (r : RunResult) (s : RegisteredSession)
    (t : Task)
    → find_task s.tasks id ≡ some t
    → IsOrdered s.tasks s.current_run_id s.cancel_requested s.seen_run_ids
    → (if pending_consumed then s.pending_runs else s.pending_runs - 1)
        + one_if (is_pending t.phase)
      ≡ count is_pending s.tasks
    → is_running t.phase ≡ current_run_set
    → IsValid (leave pending_consumed current_run_set id r s)
unfolding leave
leave-IsValid pending_consumed true id r s t found v counts runs =
    let current =
      current-found s.tasks s.current_run_id s.cancel_requested s.seen_run_ids v (left r)
        (λ u. refl) id t found runs in
    record {
      order = rw current (
          rw (eq_refl id) (
            stopped-IsOrdered s.tasks s.current_run_id s.cancel_requested s.seen_run_ids v (left r)
              (λ u. refl) id t found runs refl refl));
      counted = omega (arith, count-set_task is_pending (left r) s.tasks id t found, counts);
      shown = refl;
    }
leave-IsValid pending_consumed false id r s t found v counts rests = record {
  order =
      set_task-IsOrdered s.tasks s.current_run_id s.cancel_requested s.seen_run_ids v (left r)
        (λ u. refl) id t found (sym rests)
        (omega (arith, count-set_task holds_turn (left r) s.tasks id t found, v.one_turn));
  counted = omega (arith, count-set_task is_pending (left r) s.tasks id t found, counts);
  shown = refl;
}

pub IsValid-if :
    (b : Bool) (x y : RegisteredSession) → IsValid x → IsValid y → IsValid (if b then x else y)
IsValid-if true x y v w = v
IsValid-if false x y v w = w
