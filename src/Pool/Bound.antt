-- ===== src/Pool/Bound.antt =====
-- The invariant of the pool of tau_coding/agent_pool.py, and the steps of its tasks.
use tau_prime.Prelude.{
  ℕ, ◌+◌, String, Bool, true, false, none, some, List, [], ◌∷◌, ◌++◌, ◌==◌, ◌≡◌, refl, ap, ◌∙◌, sym,
  subst, arith, Bool-cases, inl, inr, All, Option-cases, ltb,
}
use tau_prime.Events.{AgentEvent}
use tau_prime.Pool.{Pool, find_session, set_session, delete_session}
use tau_prime.Pool.Registered.{
  Task, RegisteredSession, Phase, Progress, Ending, ran_out, was_cancelled, ended_result, RunResult,
  unstarted, awaits_permit, awaits_event, awaits_room, returned, find_task, holds_turn, noted,
  count, leave, take_turn, take_permit, end_run, offered, interrupted, task_done, awaits_turn,
}
use tau_prime.Pool.EventStream.{Put, refused, stored, must_wait, put_result}
use tau_prime.Pool.Actions.{
  TaskAction, takes_turn, takes_permit, resumes, is_interrupted, is_done, receives, ends, task_step,
  step_task,
}
use tau_prime.Pool.Actions.Permits.{active, permits-task_step}
use tau_prime.Pool.Actions.Keeps.{task_step-IsValid}
use tau_prime.Pool.Sessions.{IsSound}

-- The runs that are active in all sessions.
abbrev pub all_active : List RegisteredSession → ℕ
all_active [] = 0
all_active (s ∷ ss) = active s + all_active ss

pub all_active-append :
    (ss us : List RegisteredSession) → all_active (ss ++ us) ≡ all_active ss + all_active us
all_active-append [] us = omega arith
all_active-append (s ∷ ss) us = omega (arith, all_active-append ss us)

all_active-set_session :
    (ss : List RegisteredSession) (id : String) (s u : RegisteredSession)
    → find_session ss id ≡ some s
    → all_active (set_session id u ss) + active s ≡ all_active ss + active u
all_active-set_session [] id s u h = cc
all_active-set_session (x ∷ ss) id s u h = elim (Bool-cases (x.session_id == id)) [
  | inl same ↦
      rw same
        (ground (arith, h, same, ap (λ o. elim o as (λ _. ℕ) [ none ↦ 0 | some y ↦ active y ]) h))
  | inr other ↦ rw other (omega (arith, all_active-set_session ss id s u (rw other at h)))
]

pub all_active-delete_session :
    (ss : List RegisteredSession) (id : String) (s : RegisteredSession)
    → find_session ss id ≡ some s
    → all_active (delete_session id ss) + active s ≡ all_active ss
all_active-delete_session [] id s h = cc
all_active-delete_session (x ∷ ss) id s h = elim (Bool-cases (x.session_id == id)) [
  | inl same ↦
      rw same
        (ground (arith, h, same, ap (λ o. elim o as (λ _. ℕ) [ none ↦ 0 | some y ↦ active y ]) h))
  | inr other ↦ rw other (omega (arith, all_active-delete_session ss id s (rw other at h)))
]

module _ (P : RegisteredSession → Type 0) where
  All-find_session :
      (ss : List RegisteredSession) (id : String) (s : RegisteredSession)
      → All P ss
      → find_session ss id ≡ some s
      → P s
  All-find_session [] id s a h = cc
  All-find_session (x ∷ ss) id s a h = elim (Bool-cases (x.session_id == id)) [
    | inl same ↦ let e : (some x ≡ some s) = rw same at h in subst P (cc e) a.0
    | inr other ↦ All-find_session ss id s a.1 (rw other at h)
  ]

  All-set_session :
      (ss : List RegisteredSession) (id : String) (s : RegisteredSession)
      → All P ss
      → P s
      → All P (set_session id s ss)
  All-set_session [] id s a h = tt
  All-set_session (x ∷ ss) id s a h = elim (Bool-cases (x.session_id == id)) [
    | inl same ↦ rw same (h, a.1)
    | inr other ↦ rw other (a.0, All-set_session ss id s a.1 h)
  ]

  pub All-delete_session :
      (ss : List RegisteredSession) (id : String) → All P ss → All P (delete_session id ss)
  All-delete_session [] id a = tt
  All-delete_session (x ∷ ss) id a = elim (Bool-cases (x.session_id == id)) [
    | inl same ↦ rw same a.1
    | inr other ↦ rw other (a.0, All-delete_session ss id a.1)
  ]

-- Every session is in order, and a permit is either free or held by an active run.
pub record IsBounded (max_concurrency : ℕ) (p : Pool) : Type 0 where
  pub sound : All IsSound p.sessions
  pub permits : p.free + all_active p.sessions + p.compacting ≡ max_concurrency

-- The flags that a task leaves alone.
disposed-leave :
    (a b : Bool) (id : String) (r : RunResult) (s : RegisteredSession)
    → (leave a b id r s).disposed ≡ s.disposed
unfolding leave
disposed-leave a b id r s = refl

disposed-end_run :
    (id : String) (ending : Ending) (p : Progress) (s : RegisteredSession)
    → (end_run id ending p s).disposed ≡ s.disposed
disposed-end_run id ending p s =
    disposed-leave true true id (ended_result ending s.cancel_requested p) s

disposed-offered :
    (id : String) (e : AgentEvent) (p : Progress) (r : Put) (s : RegisteredSession)
    → (offered id e p r s).disposed ≡ s.disposed
disposed-offered id e p refused s = disposed-end_run id ran_out p s
disposed-offered id e p stored s = refl
disposed-offered id e p must_wait s = refl

disposed-take_turn : (id : String) (s : RegisteredSession) → (take_turn id s).disposed ≡ s.disposed
unfolding take_turn leave
disposed-take_turn id s = ground arith

disposed-take_permit :
    (id : String) (s : RegisteredSession) → (take_permit id s).disposed ≡ s.disposed
unfolding take_permit leave
disposed-take_permit id s = ground arith

disposed-interrupted :
    (id : String) (p : Phase) (s : RegisteredSession) → (interrupted id p s).disposed ≡ s.disposed
disposed-interrupted id awaits_turn s =
    disposed-leave false false id (unstarted (some "CancelledError")) s
disposed-interrupted id awaits_permit s =
    disposed-leave false false id (unstarted (some "CancelledError")) s
disposed-interrupted id (awaits_event p) s =
    disposed-end_run id (was_cancelled "CancelledError") p s
disposed-interrupted id (awaits_room e p) s =
    disposed-end_run id (was_cancelled "CancelledError") p s
disposed-interrupted id (returned r) s = refl

disposed-task_step :
    (a : TaskAction) (id : String) (t : Task) (p : Phase) (free : ℕ) (s : RegisteredSession)
    → (task_step a id t p free s).0.disposed ≡ s.disposed
unfolding task_step task_done
disposed-task_step takes_turn id t awaits_turn free s =
    elim (Bool-cases (ltb (count holds_turn s.tasks) 1)) [
      | inl nobody ↦ rw nobody (disposed-take_turn id s)
      | inr taken ↦ rw taken refl
    ]
disposed-task_step takes_permit id t awaits_permit free s = elim (Bool-cases (ltb 0 free)) [
  | inl some_free ↦ rw some_free (disposed-take_permit id s)
  | inr none_free ↦ rw none_free refl
]
disposed-task_step (receives e) id t (awaits_event p) free s =
    disposed-offered id e (noted e p) (put_result t.stream) s
disposed-task_step resumes id t (awaits_room e p) free s =
    disposed-offered id e p (put_result t.stream) s
disposed-task_step (ends ending) id t (awaits_event p) free s = disposed-end_run id ending p s
disposed-task_step is_interrupted id t p free s = disposed-interrupted id p s
disposed-task_step is_done id t (returned r) free s = refl
disposed-task_step a id t p free s = refl

found-has_task : (ts : List Task) (id : String) (t : Task) → find_task ts id ≡ some t → ts ≡ [] → ⊥
found-has_task ts id t found e = cc (ap (λ l. find_task l id) e)

task_step-IsSound :
    (a : TaskAction) (id : String) (t : Task) (free : ℕ) (s : RegisteredSession)
    → find_task s.tasks id ≡ some t
    → IsSound s
    → IsSound (task_step a id t t.phase free s).0
task_step-IsSound a id t free s found v = (
  task_step-IsValid id s t found v.0 a t.phase free refl,
  λ gone. absurd (
      found-has_task s.tasks id t found
        (v.1 (sym (disposed-task_step a id t t.phase free s) ∙ gone))),
)

-- A step of a task in its session.
pub step_task-IsSound :
    (a : TaskAction) (id : String) (free : ℕ) (s : RegisteredSession)
    → IsSound s
    → IsSound (step_task a id free s).0
      × ((step_task a id free s).1 + active (step_task a id free s).0 ≡ free + active s)
step_task-IsSound a id free s v = elim (Option-cases (find_task s.tasks id)) [
  | inl gone ↦ rw gone (v, refl)
  | inr (t, found) ↦
      rw found (
        task_step-IsSound a id t free s found v,
        permits-task_step id s t found a t.phase free refl,
      )
]

module _ (max_concurrency : ℕ) (p : Pool) (b : IsBounded max_concurrency p) where
  -- A session is replaced by a sound one, with as many permits as that takes or gives back.
  pub replaced-IsBounded :
      (id : String) (s u : RegisteredSession) (free : ℕ)
      → find_session p.sessions id ≡ some s
      → IsSound u
      → free + active u ≡ p.free + active s
      → IsBounded max_concurrency (record p { sessions = set_session id u p.sessions; free = free })
  replaced-IsBounded id s u free found v same = record {
    sound = All-set_session IsSound p.sessions id u b.sound v;
    permits = omega (arith, all_active-set_session p.sessions id s u found, same, b.permits);
  }

  pub IsSound-found :
      (id : String) (s : RegisteredSession) → find_session p.sessions id ≡ some s → IsSound s
  IsSound-found id s found = All-find_session IsSound p.sessions id s b.sound found
