-- ===== src/Session/Tree.antt =====
-- tau_agent/session/tree.py: entries keyed by id, and the walk from a leaf to its root.
pub mod Lineage
pub mod Index
mod Walk
pub mod Path
use tau_prime.Prelude.{
  ℕ, zero, suc, String, Option, none, some, List, [], ◌∷◌, ◌++◌, length, reverse, contains, ◌==◌,
  if◌then◌else◌,
}
use tau_prime.Session.Entries.{SessionEntry}

-- The messages of `SessionTreeError`.
pub data TreeError : Type 0 where
  duplicate_id cycle_detected missing_entry : String → TreeError

-- `out_of_fuel` stands for a walk that the model cut short.
pub data TreeResult {ℓ} (A : Type ℓ) : Type ℓ where
  ok : A → TreeResult A
  err : TreeError → TreeResult A
  out_of_fuel : TreeResult A

abbrev pub ids : List SessionEntry → List String
ids [] = []
ids (e ∷ es) = e.id ∷ ids es

-- `by_id.get(id)`
abbrev pub lookup : List SessionEntry → String → Option SessionEntry
lookup [] id = none
lookup (e ∷ es) id = if e.id == id then some e else lookup es id

-- `entries_by_id`: the table is the list of the entries put in, latest first.
pub index_from : List SessionEntry → List SessionEntry → TreeResult (List SessionEntry)
index_from table [] = ok table
index_from table (e ∷ es) =
    let rest = index_from (e ∷ table) es in
    if contains (ids table) e.id then err (duplicate_id e.id) else rest

unfoldable pub entries_by_id : List SessionEntry → TreeResult (List SessionEntry)
unfolding index_from
entries_by_id entries = index_from [] entries

-- The `while current_id is not None` loop of `path_to_entry`.
pub walk :
    ℕ
    → List SessionEntry
    → List String
    → List SessionEntry
    → Option String
    → TreeResult (List SessionEntry)
walk fuel by_id seen path none = ok (reverse path)
walk zero by_id seen path (some id) = out_of_fuel
walk (suc fuel) by_id seen path (some id) =
    if contains seen id then err (cycle_detected id) else elim (lookup by_id id) [
      | none ↦ err (missing_entry id)
      | some e ↦ walk fuel by_id (id ∷ seen) (path ++ e ∷ []) e.parent_id
    ]

unfoldable pub path_to_entry : List SessionEntry → String → TreeResult (List SessionEntry)
unfolding entries_by_id walk
path_to_entry entries leaf_id = elim (entries_by_id entries) [
  | ok by_id ↦ walk (suc (length entries)) by_id [] [] (some leaf_id)
  | err e ↦ err e
  | out_of_fuel ↦ out_of_fuel
]
