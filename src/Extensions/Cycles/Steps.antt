-- ===== src/Extensions/Cycles/Steps.antt =====
-- One round of the search of `_collect_cycle_dependents` in tau_extensions/resolution.py, which meets
-- the dependents of an extension.
use tau_prime.Prelude.{
  ◌+◌, ◌≤◌, ◌<◌, String, Bool, true, false, not, ◌&&◌, ◌||◌, List, [], ◌∷◌, ◌++◌, ◌==◌, ◌≡◌, inl,
  inr, ap, sym, ◌∙◌, arith, contains, contains-append, eq_iff, eq_refl, if◌then◌else◌, Bool-cases,
  length, length-append, difference, contains-sort, Within,
}
use tau_prime.Extensions.Ordering.{Graph, nodes, as_dependent, unsorted_dependents, dependents}
use tau_prime.Extensions.Cycles.{Search, keys, meet, meet_all}

contains-keys :
    (b : List (String × List String)) (y z : String) (c : List String)
    → contains (keys (b ++ (y, c) ∷ [])) z ≡ (contains (keys b) z || (y == z))
contains-keys [] y z c = ground arith
contains-keys ((x, d) ∷ b) y z c = ground (arith, contains-keys b y z c)

-- A node that is seen first leaves fewer that are not.
unseen-snoc :
    (ns seen : List String) (y : String)
    → length (difference ns (seen ++ y ∷ [])) ≤ length (difference ns seen)
unseen-snoc [] seen y = omega arith
unseen-snoc (n ∷ ns) seen y = ground (arith, unseen-snoc ns seen y, contains-append seen (y ∷ []) n)

fewer_unseen :
    (ns seen : List String) (y : String)
    → contains ns y ≡ true
    → contains seen y ≡ false
    → length (difference ns (seen ++ y ∷ [])) < length (difference ns seen)
fewer_unseen [] seen y h k = cc
fewer_unseen (n ∷ ns) seen y h k = elim (Bool-cases (n == y)) [
  | inl e ↦
      let back : ((y == n) ≡ true) = (eq_iff y n).1 (sym ((eq_iff n y).0 e)) in
      let now : (contains (seen ++ y ∷ []) n ≡ true) =
        contains-append seen (y ∷ []) n ∙ ground (arith, back) in
      (ground (arith, now, unseen-snoc ns seen y, ap (contains seen) ((eq_iff n y).0 e)))
  | inr e ↦
      let rest = fewer_unseen ns seen y (ground arith) k in
      let apart : ((y == n) ≡ false) = ground (arith, eq_iff y n, eq_iff n y) in
      let same : (contains (seen ++ y ∷ []) n ≡ contains seen n) =
        contains-append seen (y ∷ []) n ∙ ground (arith, apart) in
      (ground (arith, rest, same))
]

contains-as_dependent :
    (id : String) (ds : List String) (x z : String)
    → contains (as_dependent id ds x) z ≡ true
    → (id == z) ≡ true
contains-as_dependent id [] x z h = cc
contains-as_dependent id (d ∷ ds) x z h = elim (Bool-cases (d == x)) [
  | inl e ↦ elim (Bool-cases (id == z)) [
    | inl same ↦ same
    | inr other ↦ contains-as_dependent id ds x z (ground arith)
  ]
  | inr e ↦ contains-as_dependent id ds x z (ground arith)
]

contains-unsorted_dependents : (g : Graph) (x : String) → Within (unsorted_dependents g x) (nodes g)
contains-unsorted_dependents [] x z h = h
contains-unsorted_dependents ((id, ds) ∷ g) x z h =
    elim (Bool-cases (contains (as_dependent id ds x) z)) [
      | inl e ↦ (ground (arith, contains-as_dependent id ds x z e))
      | inr e ↦
          let k = sym (contains-append (as_dependent id ds x) (unsorted_dependents g x) z) ∙ h in
          let rest = contains-unsorted_dependents g x z (ground arith) in ground arith
    ]

pub dependents-Within : (g : Graph) (x : String) → Within (dependents g x) (nodes g)
dependents-Within g x z h =
    contains-unsorted_dependents g x z (sym (contains-sort (unsorted_dependents g x) z) ∙ h)

module _ (g : Graph) (cycle_members cycle : List String) where
  abbrev is_blocked : Search → String → Bool
  is_blocked s z = contains cycle_members z || contains (keys s.blocked_by_cycle) z

  -- What a step of the search leaves as it is, and what it adds for the ids that it meets.
  pub record IsStep (s t : Search) (ys : List String) : Type 0 where
    pub seen : (z : String) → contains t.seen z ≡ (contains s.seen z || contains ys z)
    pub waiting : (z : String) → contains s.queue z ≡ true → contains t.queue z ≡ true
    pub queued :
        (z : String) → contains t.seen z ≡ true → (contains s.seen z || contains t.queue z) ≡ true
    pub kept : (z : String) → is_blocked s z ≡ true → is_blocked t z ≡ true
    pub blocks :
        (z : String) → contains t.seen z ≡ true → (contains s.seen z || is_blocked t z) ≡ true
    pub added :
        (z : String)
        → contains (keys t.blocked_by_cycle) z ≡ true
        → (contains (keys s.blocked_by_cycle) z || contains t.seen z) ≡ true
    pub fewer :
        length t.queue + length (difference (nodes g) t.seen)
        ≤ length s.queue + length (difference (nodes g) s.seen)

  old-IsStep : (y : String) (s : Search) → contains s.seen y ≡ true → IsStep s s (y ∷ [])
  old-IsStep y s h = record {
    seen = λ z. elim (Bool-cases (y == z)) [
      | inl e ↦ (ground (arith, ap (contains s.seen) ((eq_iff y z).0 e)))
      | inr e ↦ ground arith
    ];
    waiting = λ z k. k;
    queued = λ z k. ground arith;
    kept = λ z k. k;
    blocks = λ z k. ground arith;
    added = λ z k. ground arith;
    fewer = omega arith;
  }

  -- An id that is met for the first time.
  abbrev found : String → Search → Search
  found y s = record s {
    queue = s.queue ++ y ∷ [];
    seen = s.seen ++ y ∷ [];
    blocked_by_cycle =
        if not (contains cycle_members y) && not (contains (keys s.blocked_by_cycle) y)
        then s.blocked_by_cycle ++ (y, cycle) ∷ []
        else s.blocked_by_cycle;
  }

  new-IsStep :
      (y : String) (s : Search)
      → contains (nodes g) y ≡ true
      → contains s.seen y ≡ false
      → IsStep s (found y s) (y ∷ [])
  new-IsStep y s in_graph h = record {
    seen = λ z. contains-append s.seen (y ∷ []) z;
    waiting = λ z k. ground (arith, contains-append s.queue (y ∷ []) z);
    queued = λ z k.
        ground (arith, contains-append s.queue (y ∷ []) z, contains-append s.seen (y ∷ []) z);
    kept = λ z k. ground (arith, contains-keys s.blocked_by_cycle y z cycle);
    blocks = λ z k. elim (Bool-cases (y == z)) [
      | inl e ↦ ground (
        arith,
        contains-keys s.blocked_by_cycle y z cycle,
        ap (contains cycle_members) ((eq_iff y z).0 e),
        ap (contains (keys s.blocked_by_cycle)) ((eq_iff y z).0 e),
      )
      | inr e ↦ (ground (arith, contains-append s.seen (y ∷ []) z))
    ];
    added = λ z k.
        ground
          (arith, contains-keys s.blocked_by_cycle y z cycle, contains-append s.seen (y ∷ []) z);
    fewer =
        omega (arith, fewer_unseen (nodes g) s.seen y in_graph h, length-append s.queue (y ∷ []));
  }

  meet-IsStep :
      (y : String) (s : Search)
      → contains (nodes g) y ≡ true
      → IsStep s (meet cycle_members cycle y s) (y ∷ [])
  meet-IsStep y s in_graph = elim (Bool-cases (contains s.seen y)) [
    | inl e ↦ rw e (old-IsStep y s e)
    | inr e ↦ rw e (new-IsStep y s in_graph e)
  ]

  pub meet_all-IsStep :
      (ys : List String) (s : Search)
      → Within ys (nodes g)
      → IsStep s (meet_all cycle_members cycle ys s) ys
  meet_all-IsStep [] s w = record {
    seen = λ z. ground arith;
    waiting = λ z k. k;
    queued = λ z k. ground arith;
    kept = λ z k. k;
    blocks = λ z k. ground arith;
    added = λ z k. ground arith;
    fewer = omega arith;
  }
  meet_all-IsStep (y ∷ ys) s w =
      let one = meet-IsStep y s (w y (ground (arith, eq_refl y))) in
      let u = meet cycle_members cycle y s in
      let rest = meet_all-IsStep ys u (λ z k. w z (ground arith)) in
      record {
        seen = λ z. rest.seen z ∙ ground (arith, one.seen z);
        waiting = λ z k. rest.waiting z (one.waiting z k);
        queued = λ z k. elim (Bool-cases (contains u.seen z)) [
          | inl e ↦ elim (Bool-cases (contains u.queue z)) [
            | inl q ↦ ground (arith, rest.waiting z q)
            | inr q ↦ ground (arith, one.queued z e)
          ]
          | inr e ↦ ground (arith, rest.queued z k)
        ];
        kept = λ z k. rest.kept z (one.kept z k);
        blocks = λ z k. elim (Bool-cases (contains u.seen z)) [
          | inl e ↦ elim (Bool-cases (is_blocked u z)) [
            | inl b ↦ ground (arith, rest.kept z b)
            | inr b ↦ ground (arith, one.blocks z e)
          ]
          | inr e ↦ ground (arith, rest.blocks z k)
        ];
        added = λ z k. elim (Bool-cases (contains (keys u.blocked_by_cycle) z)) [
          | inl e ↦ ground (arith, one.added z e, rest.seen z)
          | inr e ↦ ground (arith, rest.added z k)
        ];
        fewer = omega (arith, one.fewer, rest.fewer);
      }
