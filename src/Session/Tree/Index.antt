-- ===== src/Session/Tree/Index.antt =====
-- On the table of `entries_by_id`, against the list that it is made of.
use tau_prime.Prelude.{
  ◌≤◌, ◌≡◌, refl, ap, fun_ext, ◌∙◌, String, true, false, none, List, [], ◌∷◌, length, ◌+◌, arith,
  contains, Distinct, occurrences, occurrences-contains, eq_iff, eq_refl, if◌then◌else◌, Bool-cases,
  ◌⊎◌, inl, inr,
}
use tau_prime.Session.Entries.{SessionEntry}
use tau_prime.Session.Tree.{
  duplicate_id, TreeResult, ok, err, ids, lookup, index_from, entries_by_id,
}

-- The entries of `es` put in one after the other.
abbrev onto : List SessionEntry → List SessionEntry → List SessionEntry
onto table [] = table
onto table (e ∷ es) = onto (e ∷ table) es

-- Each entry's id is new where it is put in.
abbrev Fresh : List SessionEntry → List SessionEntry → Type 0
Fresh table [] = Unit
Fresh table (e ∷ es) = (contains (ids table) e.id ≡ false) × Fresh (e ∷ table) es

-- Some entry's id is `x` and is not new where it is put in.
abbrev Clashes : List SessionEntry → List SessionEntry → String → Type 0
Clashes table [] x = ⊥
Clashes table (e ∷ es) x =
    ((contains (ids table) e.id ≡ true) × (e.id ≡ x)) ⊎ Clashes (e ∷ table) es x

abbrev Indexed : List SessionEntry → List SessionEntry → TreeResult (List SessionEntry) → Type 0
Indexed table es (ok t) = (t ≡ onto table es) × Fresh table es
Indexed table es (err (duplicate_id x)) = Clashes table es x
Indexed table es _ = ⊥

Indexed-cons :
    (table : List SessionEntry) (e : SessionEntry) (es : List SessionEntry)
    (r : TreeResult (List SessionEntry))
    → contains (ids table) e.id ≡ false
    → Indexed (e ∷ table) es r
    → Indexed table (e ∷ es) r
Indexed-cons table e es (ok t) new h = (h.0, (new, h.1))
Indexed-cons table e es (err (duplicate_id x)) new h = inr h
Indexed-cons table e es _ new h = absurd h

index_from-Indexed : (table es : List SessionEntry) → Indexed table es (index_from table es)
unfolding index_from
index_from-Indexed table [] = (refl, tt)
index_from-Indexed table (e ∷ es) = elim (Bool-cases (contains (ids table) e.id)) [
  | inl old ↦ rw old (inl (old, refl))
  | inr new ↦ rw new (Indexed-cons table e es _ new (index_from-Indexed (e ∷ table) es))
]

Clashes-occurrences :
    (table es : List SessionEntry) (x : String)
    → Clashes table es x
    → 2 ≤ occurrences x (ids table) + occurrences x (ids es)
Clashes-occurrences table [] x c = absurd c
Clashes-occurrences table (e ∷ es) x (inl (old, same)) = ground (
  arith,
  occurrences-contains (ids table) e.id old,
  eq_iff e.id x,
  ap (λ y. occurrences y (ids table)) same,
)
Clashes-occurrences table (e ∷ es) x (inr c) =
    ground (arith, Clashes-occurrences (e ∷ table) es x c)

length-onto : (table es : List SessionEntry) → length (onto table es) ≡ length table + length es
length-onto table [] = omega arith
length-onto table (e ∷ es) = omega (arith, length-onto (e ∷ table) es)

Fresh-absent :
    (table es : List SessionEntry) (x : String)
    → Fresh table es
    → contains (ids table) x ≡ true
    → contains (ids es) x ≡ false
Fresh-absent table [] x f h = refl
Fresh-absent table (e ∷ es) x f h = ground (arith, Fresh-absent (e ∷ table) es x f.1, eq_iff e.id x)

lookup-absent :
    (es : List SessionEntry) (x : String) → contains (ids es) x ≡ false → lookup es x ≡ none
lookup-absent [] x h = refl
lookup-absent (e ∷ es) x h = ground (arith, lookup-absent es x)

lookup-onto :
    (table es : List SessionEntry) (x : String)
    → Fresh table es
    → lookup (onto table es) x ≡ (if contains (ids es) x then lookup es x else lookup table x)
lookup-onto table [] x f = refl
lookup-onto table (e ∷ es) x f =
    ground
      (arith, lookup-onto (e ∷ table) es x f.1, Fresh-absent (e ∷ table) es x f.1, eq_iff e.id x)

Fresh-Distinct : (table es : List SessionEntry) → Fresh table es → Distinct (ids es)
Fresh-Distinct table [] f = tt
Fresh-Distinct table (e ∷ es) f = (
  ground (arith, Fresh-absent (e ∷ table) es e.id f.1, eq_refl e.id),
  Fresh-Distinct (e ∷ table) es f.1,
)

-- What `entries_by_id` answers for a list of entries.
abbrev pub Keyed : List SessionEntry → TreeResult (List SessionEntry) → Type 0
Keyed entries (ok table) =
    (lookup table ≡ lookup entries) × (length table ≡ length entries) × Distinct (ids entries)
Keyed entries (err (duplicate_id x)) = 2 ≤ occurrences x (ids entries)
Keyed entries _ = ⊥

Keyed-of_Indexed :
    (entries : List SessionEntry) (r : TreeResult (List SessionEntry))
    → Indexed [] entries r
    → Keyed entries r
Keyed-of_Indexed entries (ok t) h = rw h.0 (
  fun_ext (λ x. ground (arith, lookup-onto [] entries x h.1, lookup-absent entries x)),
  length-onto [] entries ∙ omega arith,
  Fresh-Distinct [] entries h.1,
)
Keyed-of_Indexed entries (err (duplicate_id x)) h =
    omega (arith, Clashes-occurrences [] entries x h)
Keyed-of_Indexed entries _ h = absurd h

-- `entries_by_id` returns a table that answers every id as the list does, of the list's length, if
-- the ids are distinct; otherwise it names an id that stands twice. It never ends in another way.
pub entries_by_id-Keyed : (entries : List SessionEntry) → Keyed entries (entries_by_id entries)
unfolding entries_by_id
entries_by_id-Keyed entries = Keyed-of_Indexed entries _ (index_from-Indexed [] entries)
