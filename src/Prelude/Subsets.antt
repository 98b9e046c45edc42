-- ===== src/Prelude/Subsets.antt =====
-- How long lists of distinct ids are that lie in one another.
use Prim.Native.Nat.{◌≤◌}
use Prim.Native.String.{String}
use mathlib.Core.Path.{◌≡◌, ◌∙◌}
use mathlib.Core.Logic.{inl, inr}
use mathlib.Core.Bool.{true, false}
use mathlib.Core.List.{List, [], ◌∷◌}
use native.Mathlib.Omega.{arith}
use text.Mathlib.Text.{◌==◌}
use text.Mathlib.TextEquality.{eq_iff}
use text.Mathlib.TextPositions.{eq_refl}
use tau_prime.Prelude.Tests.{Bool-cases}
use tau_prime.Prelude.Lists.{length}
use tau_prime.Prelude.Ids.{contains, Distinct}
use tau_prime.Prelude.Sorting.{difference, contains-difference, length-difference_lt}

-- Every id of the first list is in the second.
abbrev pub Within : List String → List String → Type 0
Within xs ys = (x : String) → contains xs x ≡ true → contains ys x ≡ true

Within-rest :
    (x : String) (xs ys : List String)
    → contains xs x ≡ false
    → Within (x ∷ xs) ys
    → Within xs (difference ys (x ∷ []))
Within-rest x xs ys new w y h = contains-difference ys (x ∷ []) y ∙ elim (Bool-cases (x == y)) [
  | inl e ↦ absurd (ground (arith, (eq_iff x y).0 e))
  | inr e ↦ ground (arith, w y (ground arith))
]

pub Within-length : (xs ys : List String) → Distinct xs → Within xs ys → length xs ≤ length ys
Within-length [] ys d w = omega arith
Within-length (x ∷ xs) ys d w = omega (
  arith,
  Within-length xs (difference ys (x ∷ [])) d.1 (Within-rest x xs ys d.0 w),
  length-difference_lt ys (x ∷ []) x (w x (ground (arith, eq_refl x))) (ground (arith, eq_refl x)),
)

-- A list of distinct ids that is as long as one it lies in has all of its ids.
pub Within-all :
    (xs ys : List String) → Distinct xs → Within xs ys → length ys ≤ length xs → Within ys xs
Within-all xs ys d w long y h = elim (Bool-cases (contains xs y)) [
  | inl e ↦ e
  | inr e ↦
      let more : Within (y ∷ xs) ys = λ z k. elim (Bool-cases (y == z)) [
        | inl same ↦ (ground (arith, (eq_iff y z).0 same))
        | inr other ↦ w z (ground arith)
      ] in
      absurd (omega (arith, Within-length (y ∷ xs) ys (e, d) more))
]
