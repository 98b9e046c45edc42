-- ===== src/Extensions/Ordering/Justified.antt =====
-- On the outcomes of `_topological_order` of tau_extensions/resolution.py.
use tau_prime.Prelude.{
  ℕ, zero, suc, ◌+◌, ◌≤◌, ◌<◌, String, true, false, ◌&&◌, ◌||◌, Option, none, some, List, [], ◌∷◌,
  ◌++◌, ◌==◌, ◌≡◌, inl, inr, refl, ap, sym, ◌∙◌, arith, contains, Distinct, eq_iff, eq_refl,
  if◌then◌else◌, Bool-cases, length, length-append, difference, contains-difference,
  contains-insert_by, Distinct-insert_by, Within, Within-length, List-cases, Within-all,
}
use tau_prime.Extensions.{same_number}
use tau_prime.Extensions.Ordering.{
  Graph, nodes, dependencies_of, dependents, heappush, Sorting, first_ready, start_sorting, place,
  next, place_all, topological_order,
}
use tau_prime.Extensions.Ordering.Counts.{remaining-none, remaining-some, ordered-decrease_all}
use tau_prime.Extensions.Ordering.Progress.{IsInOrder, IsUnderWay, place-IsUnderWay}

-- An order has every extension once, each behind its dependencies. Where there is none, some
-- extensions each depend on one of them.
abbrev pub IsJustified : Graph → Option (List String) → Type 0
IsJustified g (some order) =
    Distinct order × ((z : String) → contains order z ≡ contains (nodes g) z) × IsInOrder g [] order
IsJustified g none =
    (stuck : List String) × (x : String) × (contains stuck x ≡ true)
    × Within stuck (nodes g)
    × ((y : String)
        → contains stuck y ≡ true
        → (d : String) × (contains (dependencies_of g y) d ≡ true) × (contains stuck d ≡ true))

ready-first_ready :
    (g : Graph) (ready : List String) (z : String)
    → Distinct (nodes g)
    → contains (first_ready g ready) z
      ≡ (contains ready z || (contains (nodes g) z && same_number (length (dependencies_of g z)) 0))
ready-first_ready [] ready z d = ground arith
ready-first_ready ((id, ds) ∷ g) ready z d =
    ready-first_ready g (if same_number (length ds) 0 then heappush id ready else ready) z d.1
    ∙ elim (Bool-cases (id == z)) [
      | inl e ↦
          ground
            (arith, contains-insert_by id ready z, d.0, ap (contains (nodes g)) ((eq_iff id z).0 e))
      | inr e ↦ ground (arith, contains-insert_by id ready z)
    ]

Distinct-first_ready :
    (g : Graph) (ready : List String)
    → Distinct (nodes g)
    → Distinct ready
    → ((z : String) → contains (nodes g) z ≡ true → contains ready z ≡ false)
    → Distinct (first_ready g ready)
Distinct-first_ready [] ready d r apart = r
Distinct-first_ready ((id, ds) ∷ g) ready d r apart =
    elim (Bool-cases (same_number (length ds) 0)) [
      | inl e ↦ rw e (
          Distinct-first_ready g (heappush id ready) d.1
            (Distinct-insert_by id ready (apart id (ground (arith, eq_refl id))) r)
            (λ z k. elim (Bool-cases (id == z)) [
              | inl same ↦
                  absurd (ground (arith, d.0, ap (contains (nodes g)) ((eq_iff id z).0 same)))
              | inr other ↦ contains-insert_by id ready z ∙ ground (arith, apart z (ground arith))
            ]))
      | inr e ↦ rw e (Distinct-first_ready g ready d.1 r (λ z k. apart z (ground arith)))
    ]

module _ (g : Graph) (distinct : Distinct (nodes g)) where
  start-IsUnderWay : IsUnderWay g (start_sorting g)
  start-IsUnderWay = record {
    counts = λ z. sym (remaining-none (dependencies_of g z));
    readies = λ z. ready-first_ready g [] z distinct;
    once = Distinct-first_ready g [] distinct tt (λ z k. refl);
    placed_once = tt;
    placed = λ z k. cc;
    spent = λ z k. cc;
    order = tt;
  }

  -- While something is ready, not everything is placed.
  not_all_placed :
      (s : Sorting) (x : String) (rest : List String)
      → IsUnderWay g s
      → s.ready ≡ x ∷ rest
      → length s.ordered < length (nodes g)
  not_all_placed s x rest v e =
      let there : (contains s.ready x ≡ true) = rw e (ground (arith, eq_refl x)) in
      let in_graph : (contains (nodes g) x ≡ true) = ground (arith, there, v.readies x) in
      let new : (contains s.ordered x ≡ false) = ground (arith, there, v.readies x) in
      Within-length (x ∷ s.ordered) (nodes g) (new, v.placed_once)
        (λ z k. elim (Bool-cases (x == z)) [
          | inl same ↦ ap (contains (nodes g)) (sym ((eq_iff x z).0 same)) ∙ in_graph
          | inr other ↦ v.placed z (ground arith)
        ])

  ordered-place :
      (s : Sorting) (x : String) (rest : List String)
      → length (place g x rest s).ordered ≡ suc (length s.ordered)
  unfolding place
  ordered-place s x rest = omega (
    arith,
    length-append s.ordered (x ∷ []),
    ap length (
        ordered-decrease_all (dependents g x)
          (record s { ready = rest; ordered = s.ordered ++ x ∷ [] })),
  )

  place_all-IsUnderWay :
      (fuel : ℕ) (s : Sorting)
      → length (nodes g) ≤ fuel + length s.ordered
      → IsUnderWay g s
      → IsUnderWay g (place_all fuel g s) × ((place_all fuel g s).ready ≡ [])
  unfolding place_all
  place_all-IsUnderWay zero s h v = elim (List-cases s.ready) [
    | inl e ↦ (v, e)
    | inr (x, rest, e) ↦ absurd (omega (arith, not_all_placed s x rest v e))
  ]
  place_all-IsUnderWay (suc fuel) s h v = elim (List-cases s.ready) [
    | inl e ↦ rw (ap (λ xs. next g xs s) e, place_all) (v, e)
    | inr (x, rest, e) ↦
        rw (ap (λ xs. next g xs s) e, place_all)
          (place_all-IsUnderWay fuel (place g x rest s) (omega (arith, ordered-place s x rest))
            (place-IsUnderWay g distinct s v x rest e))
  ]

  module _
      (whole : (x d : String)
        → contains (dependencies_of g x) d ≡ true
        → contains (nodes g) d ≡ true)
      (s : Sorting) (v : IsUnderWay g s) (e : s.ready ≡ []) where
    all-IsJustified : length s.ordered ≡ length (nodes g) → IsJustified g (some s.ordered)
    all-IsJustified h = (
      v.placed_once,
      λ z. elim (Bool-cases (contains (nodes g) z)) [
        | inl k ↦
            Within-all s.ordered (nodes g) v.placed_once v.placed (omega (arith, h)) z k ∙ sym k
        | inr k ↦ elim (Bool-cases (contains s.ordered z)) [
          | inl l ↦ l ∙ sym (v.placed z l)
          | inr l ↦ l ∙ sym k
        ]
      ],
      v.order,
    )

    -- What is not placed waits for something that is not placed either.
    waits :
        (y : String)
        → contains (difference (nodes g) s.ordered) y ≡ true
        → (d : String) × (contains (dependencies_of g y) d ≡ true)
          × (contains (difference (nodes g) s.ordered) d ≡ true)
    waits y h =
        let not_ready : (contains s.ready y ≡ false) = ap (λ xs. contains xs y) e in
        let there = contains-difference (nodes g) s.ordered y in
        let (d, k, l) =
          remaining-some s.ordered (dependencies_of g y)
            (ground (arith, v.counts y, v.readies y)) in
        (d, k, contains-difference (nodes g) s.ordered d ∙ ground (arith, whole y d k))

    some_wait :
        (length s.ordered ≡ length (nodes g) → ⊥)
        → (x : String) × (contains (difference (nodes g) s.ordered) x ≡ true)
    some_wait h = elim (List-cases (difference (nodes g) s.ordered)) [
      | inr (x, rest, k) ↦ (x, rw k (ground (arith, eq_refl x)))
      | inl k ↦
          let all : Within (nodes g) s.ordered = λ z l. elim (Bool-cases (contains s.ordered z)) [
            | inl m ↦ m
            | inr m ↦
                let none_left = ap (λ xs. contains xs z) k in
                absurd (ground (arith, contains-difference (nodes g) s.ordered z))
          ] in
          absurd (
            h (
              omega (
                arith,
                Within-length (nodes g) s.ordered distinct all,
                Within-length s.ordered (nodes g) v.placed_once v.placed,
              )))
    ]

    stuck-IsJustified : (length s.ordered ≡ length (nodes g) → ⊥) → IsJustified g none
    stuck-IsJustified h =
        let (x, k) = some_wait h in
        (
          difference (nodes g) s.ordered,
          x,
          k,
          λ z l. ground (arith, contains-difference (nodes g) s.ordered z),
          waits,
        )

  -- For a graph whose keys are distinct and whose dependencies are keys, sorting ends by itself and
  -- its outcome is justified: an order has every extension once and each behind all of its
  -- dependencies, and where an error is raised there are extensions that each depend on one of them,
  -- so that there is no order.
  pub topological_order-IsJustified :
      ((x d : String) → contains (dependencies_of g x) d ≡ true → contains (nodes g) d ≡ true)
      → IsJustified g (topological_order g)
  unfolding topological_order
  topological_order-IsJustified whole =
      let end =
        place_all-IsUnderWay (length (nodes g)) (start_sorting g) (omega arith) start-IsUnderWay in
      let s = place_all (length (nodes g)) g (start_sorting g) in
      elim (Bool-cases (same_number (length s.ordered) (length (nodes g)))) [
        | inl e ↦ rw e (all-IsJustified whole s end.0 end.1 (ground arith))
        | inr e ↦ rw e (stuck-IsJustified whole s end.0 end.1 (λ k. ground arith))
      ]
