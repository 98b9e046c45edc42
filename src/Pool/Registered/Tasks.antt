-- ===== src/Pool/Registered/Tasks.antt =====
-- Counting and finding among the tasks of a session of tau_coding/agent_pool.py.
use tau_prime.Prelude.{
  ◌+◌, ◌≤◌, String, Bool, true, false, ◌⊎◌, Option, none, some, List, [], ◌∷◌, ◌++◌, ◌==◌, ◌≡◌,
  refl, ap, ◌∙◌, arith, contains, Distinct, eq_iff, if◌then◌else◌, Bool-cases, inl, inr,
}
use tau_prime.Pool.Registered.{
  Phase, awaits_turn, awaits_permit, awaits_event, awaits_room, returned, Task, find_task, set_task,
  pop_task, run_ids, is_running, holds_turn, one_if, count,
}

-- The id of the first task that is running.
abbrev pub running_id : List Task → Option String
running_id [] = none
running_id (t ∷ ts) = if is_running t.phase then some t.run_id else running_id ts

-- Finding a task: it is the first, or it is among the others.
find_task-cons :
    (u : Task) (ts : List Task) (id : String) (t : Task)
    → find_task (u ∷ ts) id ≡ some t
    → (((u.run_id == id) ≡ true) × (u ≡ t))
      ⊎ (((u.run_id == id) ≡ false) × (find_task ts id ≡ some t))
find_task-cons u ts id t h = elim (Bool-cases (u.run_id == id)) [
  | inl same ↦ inl (same, cc (rw same at h))
  | inr other ↦ inr (other, rw other at h)
]

module _ (f : Task → Task) (keeps : (t : Task) → (f t).run_id ≡ t.run_id) where
  pub find_task-set_task :
      (ts : List Task) (id : String) (t : Task)
      → find_task ts id ≡ some t
      → find_task (set_task f id ts) id ≡ some (f t)
  find_task-set_task [] id t h = cc
  find_task-set_task (u ∷ ts) id t h = ground (arith, find_task-set_task ts id t, keeps u)

  pub run_ids-set_task : (ts : List Task) (id : String) → run_ids (set_task f id ts) ≡ run_ids ts
  run_ids-set_task [] id = refl
  run_ids-set_task (u ∷ ts) id = ground (arith, run_ids-set_task ts id, keeps u)

  pub running_id-set_task :
      (ts : List Task) (id : String) (t : Task)
      → find_task ts id ≡ some t
      → is_running (f t).phase ≡ is_running t.phase
      → running_id (set_task f id ts) ≡ running_id ts
  running_id-set_task [] id t h e = refl
  running_id-set_task (u ∷ ts) id t h e = elim (find_task-cons u ts id t h) [
    | inl (same, first) ↦ rw same (
        ground (
          arith,
          keeps u,
          e,
          ap (λ v. is_running v.phase) first,
          ap (λ v. is_running (f v).phase) first,
        ))
    | inr (other, later) ↦ rw other (
        ap (λ r. if is_running u.phase then some u.run_id else r)
          (running_id-set_task ts id t later e))
  ]

pub count-set_task :
    (P : Phase → Bool) (f : Task → Task) (ts : List Task) (id : String) (t : Task)
    → find_task ts id ≡ some t
    → count P (set_task f id ts) + one_if (P t.phase) ≡ count P ts + one_if (P (f t).phase)
count-set_task P f [] id t h = cc
count-set_task P f (u ∷ ts) id t h = elim (find_task-cons u ts id t h) [
  | inl (same, first) ↦
      rw same
        (omega (arith, ap (λ v. one_if (P v.phase)) first, ap (λ v. one_if (P (f v).phase)) first))
  | inr (other, later) ↦ rw other (omega (arith, count-set_task P f ts id t later))
]

pub count-pop_task :
    (P : Phase → Bool) (ts : List Task) (id : String) (t : Task)
    → find_task ts id ≡ some t
    → count P (pop_task id ts) + one_if (P t.phase) ≡ count P ts
count-pop_task P [] id t h = cc
count-pop_task P (u ∷ ts) id t h = elim (find_task-cons u ts id t h) [
  | inl (same, first) ↦ rw same (omega (arith, ap (λ v. one_if (P v.phase)) first))
  | inr (other, later) ↦ rw other (omega (arith, count-pop_task P ts id t later))
]

pub count-append :
    (P : Phase → Bool) (ts us : List Task) → count P (ts ++ us) ≡ count P ts + count P us
count-append P [] us = omega arith
count-append P (t ∷ ts) us = omega (arith, count-append P ts us)

-- A task that runs holds the turn lock.
running-le-holds : (p : Phase) → one_if (is_running p) ≤ one_if (holds_turn p)
running-le-holds awaits_turn = omega arith
running-le-holds awaits_permit = omega arith
running-le-holds (awaits_event p) = omega arith
running-le-holds (awaits_room e p) = omega arith
running-le-holds (returned r) = omega arith

pub count_running-le : (ts : List Task) → count is_running ts ≤ count holds_turn ts
count_running-le [] = omega arith
count_running-le (t ∷ ts) = omega (arith, count_running-le ts, running-le-holds t.phase)

pub running_id-none : (ts : List Task) → count is_running ts ≡ 0 → running_id ts ≡ none
running_id-none [] h = refl
running_id-none (t ∷ ts) h = ground (arith, running_id-none ts)

pub count-found :
    (P : Phase → Bool) (ts : List Task) (id : String) (t : Task)
    → find_task ts id ≡ some t
    → one_if (P t.phase) ≤ count P ts
count-found P ts id t h = omega (arith, count-pop_task P ts id t h)

-- Where one task runs at most, the task that is known to run is the one.
pub running_id-found :
    (ts : List Task) (id : String) (t : Task)
    → find_task ts id ≡ some t
    → is_running t.phase ≡ true
    → count is_running ts ≤ 1
    → running_id ts ≡ some id
running_id-found [] id t h r one = cc
running_id-found (u ∷ ts) id t h r one = elim (find_task-cons u ts id t h) [
  | inl (same, first) ↦
      rw (ap (λ v. is_running v.phase) first ∙ r) (ap some ((eq_iff u.run_id id).0 same))
  | inr (other, later) ↦ elim (Bool-cases (is_running u.phase)) [
    | inl runs ↦
        absurd
          (omega (arith, ap one_if runs, one, ap one_if r, count-found is_running ts id t later))
    | inr rests ↦ rw rests (running_id-found ts id t later r (omega (arith, one)))
  ]
]

pub running_id-pop_task :
    (ts : List Task) (id : String) (t : Task)
    → find_task ts id ≡ some t
    → is_running t.phase ≡ false
    → running_id (pop_task id ts) ≡ running_id ts
running_id-pop_task [] id t h r = refl
running_id-pop_task (u ∷ ts) id t h r = elim (find_task-cons u ts id t h) [
  | inl (same, first) ↦ rw same (rw (ap (λ v. is_running v.phase) first ∙ r) refl)
  | inr (other, later) ↦ rw other (
      ap (λ o. if is_running u.phase then some u.run_id else o)
        (running_id-pop_task ts id t later r))
]

pub running_id-append :
    (ts : List Task) (t : Task)
    → is_running t.phase ≡ false
    → running_id (ts ++ t ∷ []) ≡ running_id ts
running_id-append [] t r = rw r refl
running_id-append (u ∷ ts) t r = ground (arith, running_id-append ts t r)

pub contains-pop_task :
    (ts : List Task) (id x : String)
    → contains (run_ids (pop_task id ts)) x ≡ true
    → contains (run_ids ts) x ≡ true
contains-pop_task [] id x h = h
contains-pop_task (t ∷ ts) id x h = ground (arith, contains-pop_task ts id x)

pub pop_task-Distinct :
    (ts : List Task) (id : String) → Distinct (run_ids ts) → Distinct (run_ids (pop_task id ts))
pop_task-Distinct [] id d = tt
pop_task-Distinct (t ∷ ts) id d = elim (Bool-cases (t.run_id == id)) [
  | inl same ↦ rw same d.1
  | inr other ↦
      rw other (ground (arith, contains-pop_task ts id t.run_id), pop_task-Distinct ts id d.1)
]

pub run_ids-append : (ts us : List Task) → run_ids (ts ++ us) ≡ run_ids ts ++ run_ids us
run_ids-append [] us = refl
run_ids-append (t ∷ ts) us = ap (λ l. t.run_id ∷ l) (run_ids-append ts us)
