-- ===== src/Approvals/Lookups.antt =====
-- Lookups in the objects and in the resolutions of the approval manager after each change.
use tau_prime.Prelude.{
  String, false, none, some, List, [], ◌∷◌, ◌==◌, contains, Distinct, ◌≡◌, refl, arith, eq_iff,
  Bool-cases, inl, inr,
}
use tau_prime.Approvals.{PendingApproval, Resolution, find, change, resolution_of, drop_resolution}

abbrev pub resolution_ids : List Resolution → List String
resolution_ids [] = []
resolution_ids (t ∷ ts) = t.approval_id ∷ resolution_ids ts

module _ (f : PendingApproval → PendingApproval)
    (keeps : (p : PendingApproval) → (f p).request ≡ p.request) where
  pub find-change :
      (ps : List PendingApproval) (y : String) (p : PendingApproval)
      → find ps y ≡ some p
      → find (change f y ps) y ≡ some (f p)
  find-change [] y p h = cc
  find-change (q ∷ ps) y p h = ground (arith, find-change ps y p, keeps q)

  pub find-change_other :
      (ps : List PendingApproval) (y x : String)
      → (x == y) ≡ false
      → find (change f y ps) x ≡ find ps x
  find-change_other [] y x h = refl
  find-change_other (q ∷ ps) y x h = ground (
    arith,
    find-change_other ps y x h,
    keeps q,
    eq_iff q.request.approval_id y,
    eq_iff q.request.approval_id x,
    eq_iff x y,
  )

pub resolution_of-approval_id :
    (ts : List Resolution) (y : String) (t : Resolution)
    → resolution_of ts y ≡ some t
    → t.approval_id ≡ y
resolution_of-approval_id [] y t h = cc
resolution_of-approval_id (s ∷ ts) y t h =
    ground (arith, resolution_of-approval_id ts y t, eq_iff s.approval_id y)

pub contains-resolution_ids :
    (ts : List Resolution) (x : String)
    → resolution_of ts x ≡ none
    → contains (resolution_ids ts) x ≡ false
contains-resolution_ids [] x h = refl
contains-resolution_ids (s ∷ ts) x h = ground (arith, contains-resolution_ids ts x)

pub resolution_of-absent :
    (ts : List Resolution) (x : String)
    → contains (resolution_ids ts) x ≡ false
    → resolution_of ts x ≡ none
resolution_of-absent [] x h = refl
resolution_of-absent (s ∷ ts) x h = ground (arith, resolution_of-absent ts x)

pub resolution_of-drop_resolution :
    (ts : List Resolution) (y : String)
    → Distinct (resolution_ids ts)
    → resolution_of (drop_resolution y ts) y ≡ none
resolution_of-drop_resolution [] y d = refl
resolution_of-drop_resolution (s ∷ ts) y d = ground (
  arith,
  resolution_of-drop_resolution ts y d.1,
  resolution_of-absent ts s.approval_id d.0,
  eq_iff s.approval_id y,
)

pub resolution_of-drop_resolution_other :
    (ts : List Resolution) (y x : String)
    → (x == y) ≡ false
    → resolution_of (drop_resolution y ts) x ≡ resolution_of ts x
resolution_of-drop_resolution_other [] y x h = refl
resolution_of-drop_resolution_other (s ∷ ts) y x h = ground (
  arith,
  resolution_of-drop_resolution_other ts y x h,
  eq_iff s.approval_id y,
  eq_iff s.approval_id x,
  eq_iff x y,
)

pub drop_resolution-absent :
    (ts : List Resolution) (y x : String)
    → contains (resolution_ids ts) x ≡ false
    → contains (resolution_ids (drop_resolution y ts)) x ≡ false
drop_resolution-absent [] y x h = refl
drop_resolution-absent (s ∷ ts) y x h = ground (arith, drop_resolution-absent ts y x)

pub drop_resolution-Distinct :
    (ts : List Resolution) (y : String)
    → Distinct (resolution_ids ts)
    → Distinct (resolution_ids (drop_resolution y ts))
drop_resolution-Distinct [] y d = tt
drop_resolution-Distinct (s ∷ ts) y d = elim (Bool-cases (s.approval_id == y)) [
  | inl same ↦ rw same d.1
  | inr other ↦
      rw other (drop_resolution-absent ts y s.approval_id d.0, drop_resolution-Distinct ts y d.1)
]
