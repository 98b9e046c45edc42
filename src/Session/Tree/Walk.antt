-- ===== src/Session/Tree/Walk.antt =====
-- On the `while` loop of `path_to_entry`, over any table.
use tau_prime.Prelude.{
  ℕ, zero, suc, ◌≤◌, ◌<◌, ◌≡◌, refl, sym, subst, String, true, false, Option, none, some, List, [],
  ◌∷◌, ◌++◌, append-nil, append_assoc, length, reverse, arith, contains, ◌==◌, eq_iff,
  if◌then◌else◌, inl, inr, Bool-cases, Option-cases,
}
use tau_prime.Session.Entries.{SessionEntry}
use tau_prime.Session.Tree.{cycle_detected, missing_entry, TreeResult, ok, err, lookup, walk}
use tau_prime.Session.Tree.Lineage.{Lineage, stop, step, Ascends, here, IsBelow, Ascends-parent}

-- What a result of the walk says about the table.
abbrev pub Explains :
    (String → Option SessionEntry) → String → TreeResult (List SessionEntry) → Type 0
Explains find leaf (ok path) =
    (up : List SessionEntry) × Lineage find (some leaf) up × (path ≡ reverse up)
Explains find leaf (err (missing_entry x)) = Ascends find (some leaf) (some x) × (find x ≡ none)
Explains find leaf (err (cycle_detected x)) =
    Ascends find (some leaf) (some x) × IsBelow find x (some x)
Explains find leaf _ = ⊥

-- How many entries of the table the walk has not met.
pub unseen : List String → List SessionEntry → ℕ
unseen seen [] = 0
unseen seen (e ∷ es) = if contains seen e.id then unseen seen es else suc (unseen seen es)

unseen-le :
    (seen : List String) (x : String) (es : List SessionEntry)
    → unseen (x ∷ seen) es ≤ unseen seen es
unfolding unseen
unseen-le seen x [] = omega arith
unseen-le seen x (e ∷ es) = ground (arith, unseen-le seen x es)

-- Each entry that is met is one fewer.
unseen-lt :
    (seen : List String) (x : String) (es : List SessionEntry) (e : SessionEntry)
    → lookup es x ≡ some e
    → contains seen x ≡ false
    → unseen (x ∷ seen) es < unseen seen es
unfolding unseen
unseen-lt seen x [] e f new = cc
unseen-lt seen x (e' ∷ es) e f new =
    ground (arith, unseen-lt seen x es e, unseen-le seen x es, eq_iff e'.id x, eq_iff x e'.id)

pub unseen-le-length : (es : List SessionEntry) → unseen [] es ≤ length es
unfolding unseen
unseen-le-length [] = omega arith
unseen-le-length (e ∷ es) = omega (arith, unseen-le-length es)

-- Where the loop stands: `path` leads from the leaf to the current place, and all of `seen` is
-- strictly below it.
pub record Passed (table : List SessionEntry) (leaf : String) (seen : List String)
    (path : List SessionEntry) (c : Option String) : Type 0 where
  pub reached : Ascends (lookup table) (some leaf) c
  pub chain :
      (up : List SessionEntry)
      → Lineage (lookup table) c up
      → Lineage (lookup table) (some leaf) (path ++ up)
  pub below : (x : String) → contains seen x ≡ true → IsBelow (lookup table) x c

IsBelow-parent :
    (table : List SessionEntry) (x id : String) (e : SessionEntry)
    → IsBelow (lookup table) x (some id)
    → lookup table id ≡ some e
    → IsBelow (lookup table) x e.parent_id
IsBelow-parent table x id e b f = record {
  entry = b.entry;
  found = b.found;
  above = Ascends-parent b.above f;
}

IsBelow-step :
    (table : List SessionEntry) (seen : List String) (id : String) (e : SessionEntry)
    → lookup table id ≡ some e
    → ((x : String) → contains seen x ≡ true → IsBelow (lookup table) x (some id))
    → (x : String) → contains (id ∷ seen) x ≡ true
    → IsBelow (lookup table) x e.parent_id
IsBelow-step table seen id e f below x h = elim (Bool-cases (id == x)) [
  | inl same ↦
      let eq : id ≡ x = (eq_iff id x).0 same in
      subst (λ y. IsBelow (lookup table) y e.parent_id) eq
        (record { entry = e; found = f; above = here })
  | inr other ↦ IsBelow-parent table x id e (below x (ground arith)) f
]

Passed-step :
    (table : List SessionEntry) (leaf : String) (seen : List String) (path : List SessionEntry)
    (id : String) (e : SessionEntry)
    → lookup table id ≡ some e
    → Passed table leaf seen path (some id)
    → Passed table leaf (id ∷ seen) (path ++ e ∷ []) e.parent_id
Passed-step table leaf seen path id e f p = record {
  reached = Ascends-parent p.reached f;
  chain = λ up l.
      subst (Lineage (lookup table) (some leaf)) (sym (append_assoc path (e ∷ []) up))
        (p.chain (e ∷ up) (step f l));
  below = IsBelow-step table seen id e f p.below;
}

pub walk-Explains :
    (fuel : ℕ) (table : List SessionEntry) (leaf : String) (seen : List String)
    (path : List SessionEntry) (c : Option String)
    → unseen seen table < fuel
    → Passed table leaf seen path c
    → Explains (lookup table) leaf (walk fuel table seen path c)
unfolding walk
walk-Explains zero table leaf seen path c enough p = elim enough [ ]
walk-Explains (suc fuel) table leaf seen path none enough p =
    (path, rw append-nil at (p.chain [] stop), refl)
walk-Explains (suc fuel) table leaf seen path (some id) enough p =
    elim (Bool-cases (contains seen id)) [
      | inl old ↦ rw old (p.reached, p.below id old)
      | inr new ↦ rw new (elim (Option-cases (lookup table id)) [
        | inl gone ↦ rw (gone, walk) (p.reached, gone)
        | inr (e, f) ↦
            rw (f, walk)
              (walk-Explains fuel table leaf (id ∷ seen) (path ++ e ∷ []) e.parent_id
                (omega (arith, unseen-lt seen id table e f new))
                (Passed-step table leaf seen path id e f p))
      ])
    ]

pub Passed-start : (table : List SessionEntry) (leaf : String) → Passed table leaf [] [] (some leaf)
Passed-start table leaf = record { reached = here; chain = λ up l. l; below = λ x h. cc }
