-- ===== src/Extensions/Cycles/Blocked.antt =====
-- On what `_collect_cycle_dependents` of tau_extensions/resolution.py blocks for one cycle.
use tau_prime.Prelude.{
  ℕ, zero, suc, ◌+◌, ◌≤◌, String, Bool, true, false, ◌||◌, List, [], ◌∷◌, ◌==◌, ◌≡◌, inl, inr, ap,
  ◌∙◌, arith, contains, eq_iff, Bool-cases, length, difference, length-difference, Within,
  List-cases,
}
use tau_prime.Extensions.Ordering.{Graph, nodes, dependents}
use tau_prime.Extensions.Cycles.{Search, keys, members, meet_all, popleft, search, search_from}
use tau_prime.Extensions.Cycles.Steps.{dependents-Within, meet_all-IsStep}

module _ (g : Graph) (cycle_members cycle : List String) where
  abbrev is_blocked : Search → String → Bool
  is_blocked s z = contains cycle_members z || contains (keys s.blocked_by_cycle) z

  -- The search so far: whoever has been seen is blocked, and waits or has had its dependents met.
  record IsSearch (blocked : List (String × List String)) (s : Search) : Type 0 where
    blocks : (z : String) → contains s.seen z ≡ true → is_blocked s z ≡ true
    met :
        (z : String)
        → contains s.seen z ≡ true
        → contains s.queue z ≡ false
        → (y : String) → contains (dependents g z) y ≡ true
        → contains s.seen y ≡ true
    kept :
        (z : String)
        → (contains cycle_members z || contains (keys blocked) z) ≡ true
        → is_blocked s z ≡ true
    added :
        (z : String)
        → contains (keys s.blocked_by_cycle) z ≡ true
        → (contains (keys blocked) z || contains s.seen z) ≡ true
    begins : Within cycle s.seen

  next-IsSearch :
      (blocked : List (String × List String)) (s : Search) (x : String) (rest : List String)
      → s.queue ≡ x ∷ rest
      → IsSearch blocked s
      → IsSearch blocked (meet_all cycle_members cycle (dependents g x) (record s { queue = rest }))
  next-IsSearch blocked s x rest e v =
      let step =
        meet_all-IsStep g cycle_members cycle (dependents g x) (record s { queue = rest })
          (dependents-Within g x) in
      record {
        blocks = λ z k. elim (Bool-cases (contains s.seen z)) [
          | inl old ↦ step.kept z (v.blocks z old)
          | inr new ↦ (ground (arith, step.blocks z k))
        ];
        met = λ z k waits y h. step.seen y ∙ elim (Bool-cases (x == z)) [
          | inl same ↦
              let here = ap (λ w. contains (dependents g w) y) ((eq_iff x z).0 same) in ground arith
          | inr other ↦
              let old : (contains s.seen z ≡ true) = ground (arith, step.queued z k) in
              let gone : (contains rest z ≡ false) = elim (Bool-cases (contains rest z)) [
                | inl r ↦ absurd (ground (arith, step.waiting z r))
                | inr r ↦ r
              ] in
              let idle = ap (λ xs. contains xs z) e in
              ground (arith, v.met z old (ground arith) y h)
        ];
        kept = λ z k. step.kept z (v.kept z k);
        added = λ z k. elim (Bool-cases (contains (keys s.blocked_by_cycle) z)) [
          | inl old ↦ ground (arith, v.added z old, step.seen z)
          | inr new ↦ ground (arith, step.added z k)
        ];
        begins = λ z k. step.seen z ∙ ground (arith, v.begins z k);
      }

  search-IsSearch :
      (fuel : ℕ) (blocked : List (String × List String)) (s : Search)
      → length s.queue + length (difference (nodes g) s.seen) ≤ fuel
      → IsSearch blocked s
      → IsSearch blocked (search fuel g cycle_members cycle s)
        × ((search fuel g cycle_members cycle s).queue ≡ [])
  unfolding search
  search-IsSearch zero blocked s h v = elim (List-cases s.queue) [
    | inl e ↦ (v, e)
    | inr (x, rest, e) ↦ absurd (omega (arith, ap length e))
  ]
  search-IsSearch (suc fuel) blocked s h v = elim (List-cases s.queue) [
    | inl e ↦ rw (ap popleft e, search) (v, e)
    | inr (x, rest, e) ↦
        let step =
          meet_all-IsStep g cycle_members cycle (dependents g x) (record s { queue = rest })
            (dependents-Within g x) in
        rw (ap popleft e, search)
          (search-IsSearch fuel blocked
            (meet_all cycle_members cycle (dependents g x) (record s { queue = rest }))
            (omega (arith, step.fewer, ap length e)) (next-IsSearch blocked s x rest e v))
  ]

  -- A search from a cycle blocks what depends on a member of it or on what it blocks.
  pub record IsFollowed (blocked later : List (String × List String)) : Type 0 where
    pub from_cycle :
        (z y : String)
        → contains cycle z ≡ true
        → contains (dependents g z) y ≡ true
        → (contains cycle_members y || contains (keys later) y) ≡ true
    pub from_new :
        (z y : String)
        → contains (keys later) z ≡ true
        → contains (keys blocked) z ≡ false
        → contains (dependents g z) y ≡ true
        → (contains cycle_members y || contains (keys later) y) ≡ true
    pub kept :
        (z : String)
        → (contains cycle_members z || contains (keys blocked) z) ≡ true
        → (contains cycle_members z || contains (keys later) z) ≡ true

  pub search_from-IsFollowed :
      (blocked : List (String × List String))
      → Within cycle cycle_members
      → IsFollowed blocked (search_from g cycle_members cycle blocked)
  search_from-IsFollowed blocked w =
      let s : Search = record { queue = cycle; seen = cycle; blocked_by_cycle = blocked } in
      let fuel = length cycle + length (nodes g) in
      let start : IsSearch blocked s = record {
        blocks = λ z k. ground (arith, w z k);
        met = λ z k l y h. cc;
        kept = λ z k. k;
        added = λ z k. ground arith;
        begins = λ z k. k;
      } in
      let (v, e) =
        search-IsSearch fuel blocked s (omega (arith, length-difference (nodes g) cycle)) start in
      record {
        from_cycle =
            λ z y k h. v.blocks y (v.met z (v.begins z k) (ap (λ xs. contains xs z) e) y h);
        from_new = λ z y k l h.
            v.blocks y (v.met z (ground (arith, v.added z k)) (ap (λ xs. contains xs z) e) y h);
        kept = v.kept;
      }

-- The ids that are members of a cycle or blocked by one.
abbrev pub blocked_ids : List (List String) → List (String × List String) → String → Bool
blocked_ids cycles blocked x = contains (members cycles) x || contains (keys blocked) x
