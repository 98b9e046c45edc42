-- ===== src/Extensions/Cycles/Groups.antt =====
-- The ids and the lengths of the groups that `_find_cycles` of tau_extensions/resolution.py handles.
use tau_prime.Prelude.{
  suc, ◌+◌, ◌≤◌, String, List, [], ◌∷◌, ◌++◌, ◌==◌, ◌≡◌, inl, inr, refl, arith, Bool-cases, length,
  All, All-append, occurrences, occurrences-sort, Within, sort, insert_by, is_before,
}
use tau_prime.Extensions.Ordering.{Graph, nodes}
use tau_prime.Extensions.Cycles.{
  pop_component, add_cycle, members, insert_cycle, sort_cycles, is_before_cycle,
}

occurrences-append :
    (z : String) (xs ys : List String)
    → occurrences z (xs ++ ys) ≡ occurrences z xs + occurrences z ys
occurrences-append z [] ys = omega arith
occurrences-append z (x ∷ xs) ys = ground (arith, occurrences-append z xs ys)

pub occurrences-pop_component :
    (z x : String) (stack : List String)
    → occurrences z (pop_component x stack).0 + occurrences z (pop_component x stack).1
      ≡ occurrences z stack
occurrences-pop_component z x [] = omega arith
occurrences-pop_component z x (y ∷ ys) = elim (Bool-cases (y == x)) [
  | inl e ↦ rw e (ground arith)
  | inr e ↦ rw e (ground (arith, occurrences-pop_component z x ys))
]

occurrences-snoc :
    (z : String) (cs : List (List String)) (c : List String)
    → occurrences z (members (cs ++ c ∷ [])) ≡ occurrences z (members cs) + occurrences z c
occurrences-snoc z [] c = omega (arith, occurrences-append z c [])
occurrences-snoc z (b ∷ cs) c = omega (
  arith,
  occurrences-append z b (members (cs ++ c ∷ [])),
  occurrences-append z b (members cs),
  occurrences-snoc z cs c,
)

pub occurrences-add_cycle :
    (z : String) (c : List String) (cs : List (List String))
    → occurrences z (members (add_cycle c cs)) ≤ occurrences z c + occurrences z (members cs)
occurrences-add_cycle z [] cs = omega arith
occurrences-add_cycle z (x ∷ []) cs = omega arith
occurrences-add_cycle z (x ∷ y ∷ ys) cs =
    omega (arith, occurrences-snoc z cs (sort (x ∷ y ∷ ys)), occurrences-sort z (x ∷ y ∷ ys))

-- More than one extension.
abbrev pub IsKnot : List String → Type 0
IsKnot c = 2 ≤ length c

length-insert_by :
    (x : String) (ys : List String) → length (insert_by (λ y. y) x ys) ≡ suc (length ys)
length-insert_by x [] = refl
length-insert_by x (y ∷ ys) = elim (Bool-cases (is_before y x)) [
  | inl e ↦ rw e (omega (arith, length-insert_by x ys))
  | inr e ↦ rw e refl
]

length-sort : (xs : List String) → length (sort xs) ≡ length xs
length-sort [] = refl
length-sort (x ∷ xs) = omega (arith, length-insert_by x (sort xs), length-sort xs)

pub IsKnot-add_cycle :
    (c : List String) (cs : List (List String)) → All IsKnot cs → All IsKnot (add_cycle c cs)
IsKnot-add_cycle [] cs a = a
IsKnot-add_cycle (x ∷ []) cs a = a
IsKnot-add_cycle (x ∷ y ∷ ys) cs a =
    All-append IsKnot cs (sort (x ∷ y ∷ ys) ∷ []) a (omega (arith, length-sort (x ∷ y ∷ ys)), tt)

occurrences-insert_cycle :
    (z : String) (c : List String) (bs : List (List String))
    → occurrences z (members (insert_cycle c bs)) ≡ occurrences z c + occurrences z (members bs)
occurrences-insert_cycle z c [] = occurrences-append z c []
occurrences-insert_cycle z c (b ∷ bs) = elim (Bool-cases (is_before_cycle b c)) [
  | inl e ↦ rw e (
      omega (
        arith,
        occurrences-append z b (members (insert_cycle c bs)),
        occurrences-append z b (members bs),
        occurrences-insert_cycle z c bs,
      ))
  | inr e ↦ rw e (occurrences-append z c (b ++ members bs))
]

pub occurrences-sort_cycles :
    (z : String) (cs : List (List String))
    → occurrences z (members (sort_cycles cs)) ≡ occurrences z (members cs)
occurrences-sort_cycles z [] = refl
occurrences-sort_cycles z (c ∷ cs) = omega (
  arith,
  occurrences-insert_cycle z c (sort_cycles cs),
  occurrences-append z c (members cs),
  occurrences-sort_cycles z cs,
)

IsKnot-insert_cycle :
    (c : List String) (bs : List (List String))
    → IsKnot c
    → All IsKnot bs
    → All IsKnot (insert_cycle c bs)
IsKnot-insert_cycle c [] k a = (k, tt)
IsKnot-insert_cycle c (b ∷ bs) k a = elim (Bool-cases (is_before_cycle b c)) [
  | inl e ↦ rw e (a.0, IsKnot-insert_cycle c bs k a.1)
  | inr e ↦ rw e (k, a)
]

pub IsKnot-sort_cycles : (cs : List (List String)) → All IsKnot cs → All IsKnot (sort_cycles cs)
IsKnot-sort_cycles [] a = a
IsKnot-sort_cycles (c ∷ cs) a =
    IsKnot-insert_cycle c (sort_cycles cs) a.0 (IsKnot-sort_cycles cs a.1)

-- Groups of at least two extensions of the graph, of which none stands twice.
pub record AreApart (g : Graph) (cycles : List (List String)) : Type 0 where
  pub once : (z : String) → occurrences z (members cycles) ≤ 1
  pub inside : Within (members cycles) (nodes g)
  pub knots : All IsKnot cycles
