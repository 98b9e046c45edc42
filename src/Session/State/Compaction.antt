-- ===== src/Session/State/Compaction.antt =====
-- `_apply_compaction` against what a compaction means for the rows of a transcript.
use tau_prime.Prelude.{
  ◌≡◌, refl, ap, String, true, false, List, [], ◌∷◌, ◌++◌, inl, inr, contains, if◌then◌else◌,
  Bool-cases, arith,
}
use tau_prime.Session.State.{Row, summary_row, compact_rows, apply_compaction}

-- The rows that a compaction leaves.
abbrev pub kept : List String → List Row → List Row
kept replaced [] = []
kept replaced ((id, m) ∷ rows) =
    if contains replaced id then kept replaced rows else (id, m) ∷ kept replaced rows

-- The first of these rows is one that the compaction replaces, or there is none.
abbrev pub StartsReplaced : List String → List Row → Type 0
StartsReplaced replaced [] = Unit
StartsReplaced replaced ((id, m) ∷ rows) = contains replaced id ≡ true

compact_rows-inserted :
    (replaced : List String) (summary : Row) (rows : List Row)
    → compact_rows replaced summary true rows ≡ kept replaced rows
unfolding compact_rows
compact_rows-inserted replaced summary [] = refl
compact_rows-inserted replaced summary ((id, m) ∷ rows) =
    ground (arith, compact_rows-inserted replaced summary rows)

pub record Splits (replaced : List String) (summary : Row) (rows result : List Row) : Type 0 where
  pub before : List Row
  pub rest : List Row
  pub split : rows ≡ before ++ rest
  pub untouched : kept replaced before ≡ before
  pub first : StartsReplaced replaced rest
  pub result_eq : result ≡ before ++ summary ∷ kept replaced rest

compact_rows-Splits :
    (replaced : List String) (summary : Row) (rows : List Row)
    → Splits replaced summary rows (compact_rows replaced summary false rows)
unfolding compact_rows
compact_rows-Splits replaced summary [] = record {
  before = [];
  rest = [];
  split = refl;
  untouched = refl;
  first = tt;
  result_eq = refl;
}
compact_rows-Splits replaced summary ((id, m) ∷ rows) = elim (Bool-cases (contains replaced id)) [
  | inl old ↦ record {
    before = [];
    rest = (id, m) ∷ rows;
    split = refl;
    untouched = refl;
    first = old;
    result_eq =
        rw (old, compact_rows) (ap (◌∷◌ summary) (compact_rows-inserted replaced summary rows));
  }
  | inr new ↦
      let s = compact_rows-Splits replaced summary rows in
      record {
        before = (id, m) ∷ s.before;
        rest = s.rest;
        split = ap (◌∷◌ (id, m)) s.split;
        untouched = rw new (ap (◌∷◌ (id, m)) s.untouched);
        first = s.first;
        result_eq = rw new (ap (◌∷◌ (id, m)) s.result_eq);
      }
]

-- A compaction puts its summary at the place of the first row that it replaces, or last if it
-- replaces none; it drops every row that it replaces and keeps all others in order.
pub apply_compaction-Splits :
    (rows : List Row) (id summary : String) (replaces : List String)
    → Splits replaces (summary_row id summary) rows (apply_compaction rows id summary replaces)
unfolding apply_compaction
apply_compaction-Splits rows id summary replaces =
    compact_rows-Splits replaces (summary_row id summary) rows
