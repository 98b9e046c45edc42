-- ===== src/Approvals/Invariant.antt =====
-- The invariant of the approval manager of tau_web/approvals.py, on resolutions in flight, objects
-- and the audit log.
use tau_prime.Prelude.{
  String, Bool, true, false, Option, none, some, ◌==◌, Distinct, ◌≡◌, refl, sym, subst, arith,
  eq_iff, Bool-cases, inl, inr,
}
use tau_prime.Approvals.{
  is_allow, PendingApproval, Resolution, Manager, find, resolution_of, get_pending, is_open, allows,
}
use tau_prime.Approvals.Lookups.{resolution_ids}

-- What holds of an id: a resolution in flight has taken an object that is not done, and a "yes" that
-- is given, or about to be given, is audited.
abbrev pub Sound : Option PendingApproval → Option Resolution → Bool → Type 0
Sound none none allowed = Unit
Sound none (some t) allowed = ⊥
Sound (some p) none allowed = p.future ≡ some true → allowed ≡ true
Sound (some p) (some t) allowed =
    (p.future ≡ none)
    × (p.resolving ≡ true)
    × (t.audited ≡ true → is_allow t.decision ≡ true → allowed ≡ true)

abbrev pub SoundAt : Manager → String → Type 0
SoundAt m x = Sound (find m.objects x) (resolution_of m.resolutions x) (allows m.audit x)

abbrev pub IsValid : Manager → Type 0
IsValid m = ((x : String) → SoundAt m x) × Distinct (resolution_ids m.resolutions)

-- The id that a step is about, and all the others, at which nothing changes.
pub IsValid-changed :
    (m m' : Manager) (y : String)
    → IsValid m
    → SoundAt m' y
    → ((x : String)
        → (x == y) ≡ false
        → (find m'.objects x ≡ find m.objects x)
          × (resolution_of m'.resolutions x ≡ resolution_of m.resolutions x)
          × (allows m'.audit x ≡ allows m.audit x))
    → Distinct (resolution_ids m'.resolutions)
    → IsValid m'
IsValid-changed m m' y v here others d = (
  (λ x. elim (Bool-cases (x == y)) [
    | inl same ↦ subst (SoundAt m') (sym ((eq_iff x y).0 same)) here
    | inr other ↦ rw (others x other).0 (rw (others x other).1 (rw (others x other).2 (v.0 x)))
  ]),
  d,
)

-- An open object has no resolution in flight.
pub resolution_of-open :
    (p : PendingApproval) (o : Option Resolution) (allowed : Bool)
    → Sound (some p) o allowed
    → is_open (some p) ≡ true
    → (o ≡ none) × (p.future ≡ none)
resolution_of-open p none allowed s h = (refl, ground arith)
resolution_of-open p (some t) allowed s h = ground arith

-- An id without an object has no resolution.
pub resolution_of-unknown :
    (o : Option Resolution) (allowed : Bool) → Sound none o allowed → o ≡ none
resolution_of-unknown none allowed s = refl
resolution_of-unknown (some t) allowed s = absurd s

pub find-get_pending :
    (m : Manager) (x : String) (p : PendingApproval)
    → get_pending m x ≡ some p
    → find m.objects x ≡ some p
find-get_pending m x p h = ground arith

-- A resolution in flight has an object.
Sound-taken :
    (o : Option PendingApproval) (t : Resolution) (allowed : Bool)
    → Sound o (some t) allowed
    → (p : PendingApproval) × (o ≡ some p) × Sound (some p) (some t) allowed
Sound-taken none t allowed s = absurd s
Sound-taken (some p) t allowed s = (p, refl, s)

pub taken-SoundAt :
    (m : Manager) (id : String) (t : Resolution)
    → IsValid m
    → resolution_of m.resolutions id ≡ some t
    → (p : PendingApproval) × (find m.objects id ≡ some p)
      × Sound (some p) (some t) (allows m.audit id)
taken-SoundAt m id t v found =
    Sound-taken (find m.objects id) t (allows m.audit id) (rw⁻¹ found (v.0 id))
