-- ===== src/Approvals/Shutdown.antt =====
-- On `shutdown` of tau_web/approvals.py and the requests that are open.
use tau_prime.Prelude.{
  String, true, false, none, some, List, [], ◌∷◌, ◌==◌, contains, ◌≡◌, refl, ap, arith, eq_iff,
  eq_refl, Bool-cases, inl, inr, ◌∙◌, subst,
}
use tau_prime.Approvals.{
  ToolApprovalRequest, deny, Manager, change, take, set_result, get_pending, is_open, request,
  resolve, act, resolve_undisturbed, denied, deny_all, shutdown,
}
use tau_prime.Approvals.Lookups.{find-change_other}
use tau_prime.Approvals.Once.{
  objects-resolve_undisturbed, is_open-get_pending, resolve_undisturbed-result,
}

module _ (id : String) (m : Manager) (free : is_open (get_pending m id) ≡ true) where
  keys-resolve_undisturbed :
      (resolve_undisturbed id deny (some "runtime-shutdown") none m).keys ≡ m.keys
  unfolding resolve_undisturbed act resolve
  keys-resolve_undisturbed = rw free (rw (eq_refl id) (rw (eq_refl id) refl))

  closed-resolve_undisturbed :
      (resolve_undisturbed id deny (some "runtime-shutdown") none m).closed ≡ m.closed
  unfolding resolve_undisturbed act resolve
  closed-resolve_undisturbed = rw free (rw (eq_refl id) (rw (eq_refl id) refl))

  get_pending-resolve_undisturbed :
      (x : String)
      → (x == id) ≡ false
      → get_pending (resolve_undisturbed id deny (some "runtime-shutdown") none m) x
        ≡ get_pending m x
  get_pending-resolve_undisturbed x other = rw keys-resolve_undisturbed (
      rw (objects-resolve_undisturbed id deny (some "runtime-shutdown") none m free) (
        rw (find-change_other (set_result deny) (λ q. refl) (change take id m.objects) id x other)
          (rw (find-change_other take (λ q. refl) m.objects id x other) refl)))

closed-denied : (id : String) (m : Manager) → (denied id m).closed ≡ m.closed
closed-denied id m = elim (Bool-cases (is_open (get_pending m id))) [
  | inl free ↦ rw free (closed-resolve_undisturbed id m free)
  | inr done ↦ rw done refl
]

closed-deny_all : (ids : List String) (m : Manager) → (deny_all ids m).closed ≡ m.closed
closed-deny_all [] m = refl
closed-deny_all (id ∷ ids) m = closed-deny_all ids (denied id m) ∙ closed-denied id m

is_open-denied : (id : String) (m : Manager) → is_open (get_pending (denied id m) id) ≡ false
is_open-denied id m = elim (Bool-cases (is_open (get_pending m id))) [
  | inl free ↦ rw free (
      is_open-get_pending id (resolve_undisturbed id deny (some "runtime-shutdown") none m) false
        (resolve_undisturbed-result id deny deny (some "runtime-shutdown") none m free).0)
  | inr done ↦ rw done done
]

is_open-denied_other :
    (id x : String) (m : Manager)
    → is_open (get_pending m x) ≡ false
    → is_open (get_pending (denied id m) x) ≡ false
is_open-denied_other id x m done = elim (Bool-cases (is_open (get_pending m id))) [
  | inr kept ↦ rw kept done
  | inl free ↦ rw free (elim (Bool-cases (x == id)) [
    | inl same ↦
        absurd
          (ground (arith, done, free, ap (λ y. is_open (get_pending m y)) ((eq_iff x id).0 same)))
    | inr other ↦ rw (get_pending-resolve_undisturbed id m free x other) done
  ])
]

is_open-deny_all :
    (ids : List String) (x : String) (m : Manager)
    → (contains ids x ≡ false → is_open (get_pending m x) ≡ false)
    → is_open (get_pending (deny_all ids m) x) ≡ false
is_open-deny_all [] x m done = done refl
is_open-deny_all (id ∷ ids) x m done = is_open-deny_all ids x (denied id m) (λ absent.
    elim (Bool-cases (id == x)) [
      | inl same ↦
          subst (λ y. is_open (get_pending (denied id m) y) ≡ false) ((eq_iff id x).0 same)
            (is_open-denied id m)
      | inr other ↦ is_open-denied_other id x m (done (rw other (rw absent refl)))
    ])

-- After a shutdown of an open manager that nothing runs against, no request is open to a decision,
-- and a new request is refused at once.
pub is_open-shutdown :
    (m : Manager) (r : ToolApprovalRequest) (x : String)
    → m.closed ≡ false
    → (is_open (get_pending (shutdown m) x) ≡ false) × (request r (shutdown m) ≡ none)
unfolding request
is_open-shutdown m r x live = rw live (
  is_open-deny_all m.keys x (record m { closed = true }) (λ absent. rw absent refl),
  rw (closed-deny_all m.keys (record m { closed = true })) refl,
)
