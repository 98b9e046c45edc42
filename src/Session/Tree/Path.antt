-- ===== src/Session/Tree/Path.antt =====
-- On the outcomes of `path_to_entry`, against the chain of parents.
use mathlib.Core.List.{reverse-cons}
use tau_prime.Prelude.{
  suc, ◌≤◌, ◌≡◌, ◌≢◌, refl, ap, subst, String, Option, none, some, List, [], ◌∷◌, ◌++◌, length,
  reverse, true, ◌==◌, eq_iff, contains, Bool-cases, inl, inr, Distinct-reverse, sym, arith,
  Distinct, occurrences, occurrences-Distinct, ◌∙◌,
}
use tau_prime.Session.Entries.{SessionEntry}
use tau_prime.Session.Tree.{
  duplicate_id, cycle_detected, missing_entry, TreeResult, ok, err, out_of_fuel, ids, lookup, walk,
  entries_by_id, path_to_entry,
}
use tau_prime.Session.Tree.Lineage.{
  Lineage, stop, step, Ascends, here, parent, Lineage-unique, Lineage-above, IsBelow-no-Lineage,
}
use tau_prime.Session.Tree.Index.{Keyed, entries_by_id-Keyed}
use tau_prime.Session.Tree.Walk.{Explains, unseen-le-length, walk-Explains, Passed-start}

-- What each outcome says about the entries and the leaf.
abbrev pub Justified : List SessionEntry → String → TreeResult (List SessionEntry) → Type 0
Justified entries leaf (err (duplicate_id x)) = 2 ≤ occurrences x (ids entries)
Justified entries leaf r = Distinct (ids entries) × Explains (lookup entries) leaf r

Justified-of_Explains :
    (entries : List SessionEntry) (leaf : String) (r : TreeResult (List SessionEntry))
    → Distinct (ids entries)
    → Explains (lookup entries) leaf r
    → Justified entries leaf r
Justified-of_Explains entries leaf (err (duplicate_id x)) d h = absurd h
Justified-of_Explains entries leaf _ d h = (d, h)

walk-Justified :
    (entries table : List SessionEntry) (leaf : String)
    → Keyed entries (ok table)
    → Justified entries leaf (walk (suc (length entries)) table [] [] (some leaf))
walk-Justified entries table leaf k = Justified-of_Explains entries leaf _ k.2 (
    subst (λ find. Explains find leaf (walk (suc (length entries)) table [] [] (some leaf))) k.0
      (walk-Explains (suc (length entries)) table leaf [] [] (some leaf)
        (omega (arith, unseen-le-length table, k.1)) (Passed-start table leaf)))

-- The outcome of `entries_by_id` decides how `path_to_entry` goes on.
path-Justified :
    (entries : List SessionEntry) (leaf : String) (r : TreeResult (List SessionEntry))
    → entries_by_id entries ≡ r
    → Keyed entries r
    → Justified entries leaf (path_to_entry entries leaf)
unfolding path_to_entry
path-Justified entries leaf (ok table) e k =
    rw (e, path_to_entry) (walk-Justified entries table leaf k)
path-Justified entries leaf (err (duplicate_id x)) e k = rw (e, path_to_entry) k
path-Justified entries leaf (err (cycle_detected x)) e k = absurd k
path-Justified entries leaf (err (missing_entry x)) e k = absurd k
path-Justified entries leaf out_of_fuel e k = absurd k

-- Whatever the entries and the leaf, the walk ends by itself, and its outcome is justified: a
-- duplicate error names an id that stands at least twice; in every other case the ids are distinct,
-- a path is the chain of parents from the leaf to a root, put root first; a missing entry is
-- reached from the leaf and has no entry; a cycle is reached from the leaf and reaches itself by at
-- least one parent step.
pub path_to_entry-Justified :
    (entries : List SessionEntry) (leaf : String)
    → Justified entries leaf (path_to_entry entries leaf)
path_to_entry-Justified entries leaf =
    path-Justified entries leaf _ refl (entries_by_id-Keyed entries)

Lineage-found :
    {find : String → Option SessionEntry} {x : String} {up : List SessionEntry}
    → Lineage find (some x) up
    → find x ≢ none
Lineage-found (step f l) gone = cc

Lineage-decides :
    (entries : List SessionEntry) (leaf : String) (up : List SessionEntry)
    (r : TreeResult (List SessionEntry))
    → Distinct (ids entries)
    → Lineage (lookup entries) (some leaf) up
    → Justified entries leaf r
    → r ≡ ok (reverse up)
Lineage-decides entries leaf up (ok path) d l (_, (up', l', e)) =
    ap ok (e ∙ ap reverse (Lineage-unique l' l))
Lineage-decides entries leaf up (err (duplicate_id x)) d l h =
    absurd (omega (arith, occurrences-Distinct (ids entries) x d))
Lineage-decides entries leaf up (err (missing_entry x)) d l (_, (r, gone)) =
    absurd (let (ys, m, _) = Lineage-above l r in Lineage-found m gone)
Lineage-decides entries leaf up (err (cycle_detected x)) d l (_, (r, b)) =
    absurd (let (ys, m, _) = Lineage-above l r in IsBelow-no-Lineage m b)
Lineage-decides entries leaf up out_of_fuel d l (_, h) = absurd h

-- If the ids are distinct and the leaf has a chain of parents up to a root, that chain is returned,
-- root first.
pub path_to_entry_complete :
    (entries : List SessionEntry) (leaf : String) (up : List SessionEntry)
    → Distinct (ids entries)
    → Lineage (lookup entries) (some leaf) up
    → path_to_entry entries leaf ≡ ok (reverse up)
path_to_entry_complete entries leaf up d l =
    Lineage-decides entries leaf up _ d l (path_to_entry-Justified entries leaf)

ids-snoc : (es : List SessionEntry) (e : SessionEntry) → ids (es ++ e ∷ []) ≡ ids es ++ e.id ∷ []
ids-snoc [] e = refl
ids-snoc (x ∷ es) e = rw (ids-snoc es e)

ids-reverse : (es : List SessionEntry) → ids (reverse es) ≡ reverse (ids es)
ids-reverse [] = refl
ids-reverse (e ∷ es) =
    rw (reverse-cons e es, reverse-cons e.id (ids es), ids-snoc (reverse es) e, ids-reverse es)

lookup-id :
    (entries : List SessionEntry) (x : String) (e : SessionEntry)
    → lookup entries x ≡ some e
    → e.id ≡ x
lookup-id [] x e h = cc
lookup-id (e' ∷ es) x e h = ground (arith, lookup-id es x e, eq_iff e'.id x)

-- Every id of a lineage is reached from its start.
Lineage-reaches :
    (entries : List SessionEntry) {c : Option String} {up : List SessionEntry} (x : String)
    → Lineage (lookup entries) c up
    → contains (ids up) x ≡ true
    → Ascends (lookup entries) c (some x)
Lineage-reaches entries x stop h = cc
Lineage-reaches entries x (step {id = id} {e = e} f l) h = elim (Bool-cases (e.id == x)) [
  | inl hit ↦
      let same : x ≡ id = sym ((eq_iff e.id x).0 hit) ∙ lookup-id entries id e f in rw same here
  | inr miss ↦ parent f (Lineage-reaches entries x l (ground arith))
]

Lineage-Distinct :
    (entries : List SessionEntry) {c : Option String} {up : List SessionEntry}
    → Lineage (lookup entries) c up
    → Distinct (ids up)
Lineage-Distinct entries stop = tt
Lineage-Distinct entries (step {id = id} {e = e} {up = up} f l) =
    let same : e.id ≡ id = lookup-id entries id e f in
    (
      elim (Bool-cases (contains (ids up) e.id)) [
        | inl again ↦ absurd (
            IsBelow-no-Lineage (step f l) (record {
              entry = e;
              found = f;
              above =
                  Lineage-reaches entries id l (subst (λ y. contains (ids up) y ≡ true) same again);
            }))
        | inr new ↦ new
      ],
      Lineage-Distinct entries l,
    )

Justified-Distinct :
    (entries : List SessionEntry) (leaf : String) (r : TreeResult (List SessionEntry))
    (path : List SessionEntry)
    → Justified entries leaf r
    → r ≡ ok path
    → Distinct (ids path)
Justified-Distinct entries leaf (ok p) path (_, (up, l, e)) h =
    let same : path ≡ reverse up = cc in
    rw (same, ids-reverse up) (Distinct-reverse (ids up) (Lineage-Distinct entries l))
Justified-Distinct entries leaf (err e) path j h = absurd (cc)
Justified-Distinct entries leaf out_of_fuel path j h = absurd (cc)

-- No id stands twice on a path that is returned.
pub path_to_entry-Distinct :
    (entries : List SessionEntry) (leaf : String) (path : List SessionEntry)
    → path_to_entry entries leaf ≡ ok path
    → Distinct (ids path)
path_to_entry-Distinct entries leaf path h =
    Justified-Distinct entries leaf _ path (path_to_entry-Justified entries leaf) h
