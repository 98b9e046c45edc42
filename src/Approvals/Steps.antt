-- ===== src/Approvals/Steps.antt =====
-- The invariant of the approval manager of tau_web/approvals.py, step by step.
use tau_prime.Prelude.{
  String, true, Option, none, some, ◌≡◌, refl, subst, arith, eq_iff, eq_refl, Bool-cases,
  Option-cases, inl, inr,
}
use tau_prime.Approvals.{
  ToolApprovalRequest, Decision, PendingApproval, Resolution, Manager, find, resolution_of,
  drop_resolution, change, get_pending, is_open, take, release, set_result, request, add_request,
  start_resolution, resolve, or_unchanged, record_audit, finish_resolution, abandon_resolution,
  Action, act, IsFresh, Reachable, allows,
}
use tau_prime.Approvals.Lookups.{
  find-change, find-change_other, resolution_of-approval_id, contains-resolution_ids,
  resolution_of-drop_resolution, resolution_of-drop_resolution_other, drop_resolution-Distinct,
}
use tau_prime.Approvals.Invariant.{
  Sound, IsValid, IsValid-changed, resolution_of-open, resolution_of-unknown, find-get_pending,
  taken-SoundAt,
}

request-IsValid :
    (r : ToolApprovalRequest) (m : Manager)
    → IsFresh (Action.requests r) m
    → IsValid m
    → IsValid (or_unchanged (request r m) m)
unfolding request
request-IsValid r m fresh v =
    let unknown =
      resolution_of-unknown (resolution_of m.resolutions r.approval_id)
        (allows m.audit r.approval_id)
        (subst
          (λ o. Sound o (resolution_of m.resolutions r.approval_id) (allows m.audit r.approval_id))
          fresh (v.0 r.approval_id)) in
    elim (Bool-cases m.closed) [
      | inl shut ↦ rw shut v
      | inr live ↦ rw live (
          IsValid-changed m (add_request r m) r.approval_id v
            (rw (eq_refl r.approval_id) (rw unknown (λ given. cc)))
            (λ x other.
              (ground (arith, eq_iff r.approval_id x, eq_iff x r.approval_id), refl, refl))
            v.1)
    ]

start_resolution-IsValid :
    (id : String) (d : Decision) (actor_id request_id : Option String) (m : Manager)
    (p : PendingApproval)
    → IsValid m
    → find m.objects id ≡ some p
    → is_open (some p) ≡ true
    → IsValid (start_resolution id d actor_id request_id m)
start_resolution-IsValid id d actor_id request_id m p v found free =
    let idle =
      resolution_of-open p (resolution_of m.resolutions id) (allows m.audit id)
        (rw⁻¹ found (v.0 id)) free in
    IsValid-changed m (start_resolution id d actor_id request_id m) id v
      (rw (find-change take (λ q. refl) m.objects id p found)
        (rw (eq_refl id) (idle.1, refl, λ audited allowing. absurd (ground arith))))
      (λ x other. (
        find-change_other take (λ q. refl) m.objects id x other,
        ground (arith, eq_iff id x, eq_iff x id),
        refl,
      ))
      (contains-resolution_ids m.resolutions id idle.0, v.1)

resolve-IsValid :
    (id : String) (d : Decision) (actor_id request_id : Option String) (m : Manager)
    → IsValid m
    → IsValid (or_unchanged (resolve id d actor_id request_id m) m)
unfolding resolve
resolve-IsValid id d actor_id request_id m v = elim (Option-cases (get_pending m id)) [
  | inl gone ↦ rw gone v
  | inr (p, got) ↦ rw got (elim (Bool-cases (is_open (some p))) [
    | inr held ↦ rw held v
    | inl free ↦
        rw free (
          start_resolution-IsValid id d actor_id request_id m p v (find-get_pending m id p got)
            free)
  ])
]

record_audit-IsValid :
    (id : String) (t : Resolution) (m : Manager)
    → IsValid m
    → resolution_of m.resolutions id ≡ some t
    → IsValid (record_audit id (some t) m)
record_audit-IsValid id t m v found =
    let same = resolution_of-approval_id m.resolutions id t found in
    let held = taken-SoundAt m id t v found in
    IsValid-changed m (record_audit id (some t) m) id v
      (rw held.1 (rw same (rw (eq_refl id) (held.2.0, held.2.1, λ audited allowing. ground arith))))
      (λ x other. (
        refl,
        ground (
          arith,
          same,
          eq_iff id x,
          eq_iff x id,
          resolution_of-drop_resolution_other m.resolutions id x other,
        ),
        ground (arith, same, eq_iff id x, eq_iff x id),
      ))
      (
        rw same (
            contains-resolution_ids (drop_resolution id m.resolutions) id
              (resolution_of-drop_resolution m.resolutions id v.1)),
        drop_resolution-Distinct m.resolutions id v.1,
      )

finish_resolution-IsValid :
    (id : String) (t : Resolution) (m : Manager)
    → IsValid m
    → resolution_of m.resolutions id ≡ some t
    → IsValid (finish_resolution id (some t) m)
finish_resolution-IsValid id t m v found =
    let held = taken-SoundAt m id t v found in
    elim (Bool-cases t.audited) [
      | inr waiting ↦ rw waiting v
      | inl written ↦ rw written (
          IsValid-changed m
            (record m {
              objects = change (set_result t.decision) id m.objects;
              resolutions = drop_resolution id m.resolutions;
            })
            id v
            (rw (find-change (set_result t.decision) (λ q. refl) m.objects id held.0 held.1) (
              rw (resolution_of-drop_resolution m.resolutions id v.1)
                (λ given. held.2.2 written (ground (arith, given)))))
            (λ x other. (
              find-change_other (set_result t.decision) (λ q. refl) m.objects id x other,
              resolution_of-drop_resolution_other m.resolutions id x other,
              refl,
            ))
            (drop_resolution-Distinct m.resolutions id v.1))
    ]

abandon_resolution-IsValid :
    (id : String) (t : Resolution) (m : Manager)
    → IsValid m
    → resolution_of m.resolutions id ≡ some t
    → IsValid (abandon_resolution id (some t) m)
abandon_resolution-IsValid id t m v found =
    let held = taken-SoundAt m id t v found in
    IsValid-changed m (abandon_resolution id (some t) m) id v
      (rw (find-change release (λ q. refl) m.objects id held.0 held.1) (
        rw (resolution_of-drop_resolution m.resolutions id v.1)
          (λ given. ground (arith, held.2.0, given))))
      (λ x other. (
        find-change_other release (λ q. refl) m.objects id x other,
        resolution_of-drop_resolution_other m.resolutions id x other,
        refl,
      ))
      (drop_resolution-Distinct m.resolutions id v.1)

at_resolution-IsValid :
    (step : String → Option Resolution → Manager → Manager) (id : String) (m : Manager)
    → ((step id none m) ≡ m)
    → ((t : Resolution) → resolution_of m.resolutions id ≡ some t → IsValid (step id (some t) m))
    → IsValid m
    → IsValid (step id (resolution_of m.resolutions id) m)
at_resolution-IsValid step id m idle busy v = elim (Option-cases (resolution_of m.resolutions id)) [
  | inl gone ↦ rw gone (rw idle v)
  | inr (t, found) ↦ rw found (busy t found)
]

act-IsValid : (a : Action) (m : Manager) → IsFresh a m → IsValid m → IsValid (act a m)
unfolding act
act-IsValid (Action.requests r) m fresh v = request-IsValid r m fresh v
act-IsValid (Action.announces r) m fresh v = v
act-IsValid (Action.resolves id d actor_id request_id) m fresh v =
    resolve-IsValid id d actor_id request_id m v
act-IsValid (Action.audits id) m fresh v =
    at_resolution-IsValid record_audit id m refl (λ t. record_audit-IsValid id t m v) v
act-IsValid (Action.publishes id) m fresh v =
    at_resolution-IsValid finish_resolution id m refl (λ t. finish_resolution-IsValid id t m v) v
act-IsValid (Action.fails id) m fresh v =
    at_resolution-IsValid abandon_resolution id m refl (λ t. abandon_resolution-IsValid id t m v) v
act-IsValid (Action.leaves id) m fresh v = v
act-IsValid Action.shuts_down m fresh v = v

pub Reachable-IsValid : (m : Manager) → Reachable m → IsValid m
Reachable-IsValid m Reachable.starts = ((λ x. tt), tt)
Reachable-IsValid m (Reachable.acts a before reached fresh) =
    act-IsValid a before fresh (Reachable-IsValid before reached)
