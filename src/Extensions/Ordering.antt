-- ===== src/Extensions/Ordering.antt =====
-- `_topological_order` of tau_extensions/resolution.py: the order in which extensions are activated.
pub mod Counts
pub mod Progress
pub mod Justified
use tau_prime.Prelude.{
  ℕ, zero, suc, ◌-◌, String, Bool, true, false, not, Option, none, some, List, [], ◌∷◌, ◌++◌, ◌==◌,
  contains, length, if◌then◌else◌, sort, insert_by, leb,
}
use tau_prime.Extensions.{same_number}

-- `Mapping[str, tuple[str, ...]]`: the extensions with their dependencies.
abbrev pub Graph : Type 0
Graph = List (String × List String)

abbrev pub nodes : Graph → List String
nodes [] = []
nodes ((id, dependencies) ∷ g) = id ∷ nodes g

-- `graph[extension_id]`, and nothing for what is no key.
abbrev pub dependencies_of : Graph → String → List String
dependencies_of [] x = []
dependencies_of ((id, dependencies) ∷ g) x = if id == x then dependencies else dependencies_of g x

-- What one extension adds to the list of the dependents of `x`.
abbrev pub as_dependent : String → List String → String → List String
as_dependent id [] x = []
as_dependent id (d ∷ ds) x = if d == x then id ∷ as_dependent id ds x else as_dependent id ds x

-- `reverse_graph.get(x, [])`, before and after it is sorted
abbrev pub unsorted_dependents : Graph → String → List String
unsorted_dependents [] x = []
unsorted_dependents ((id, dependencies) ∷ g) x =
    as_dependent id dependencies x ++ unsorted_dependents g x

abbrev pub dependents : Graph → String → List String
dependents g x = sort (unsorted_dependents g x)

-- The variables of `_topological_order`. A heap is a list in order: `heappop` takes its head.
pub record Sorting : Type 0 where
  pub indegree : String → ℕ
  pub ready : List String
  pub ordered : List String

abbrev pub heappush : String → List String → List String
heappush = insert_by (λ x. x)

abbrev pub first_ready : Graph → List String → List String
first_ready [] ready = ready
first_ready ((id, dependencies) ∷ g) ready =
    first_ready g (if same_number (length dependencies) 0 then heappush id ready else ready)

abbrev pub start_sorting : Graph → Sorting
start_sorting g = record {
  indegree = λ x. length (dependencies_of g x);
  ready = first_ready g [];
  ordered = [];
}

-- The body of the loop over the dependents. The count is 0 after the subtraction where it was 1.
abbrev pub decrease : String → Sorting → Sorting
decrease x s = record s {
  indegree = λ y. if x == y then s.indegree y - 1 else s.indegree y;
  ready = if same_number (s.indegree x) 1 then heappush x s.ready else s.ready;
}

abbrev pub decrease_all : List String → Sorting → Sorting
decrease_all [] s = s
decrease_all (x ∷ xs) s = decrease_all xs (decrease x s)

-- The body of `while ready`, for what `heappop` gives.
unfoldable pub place : Graph → String → List String → Sorting → Sorting
place g x rest s =
    decrease_all (dependents g x) (record s { ready = rest; ordered = s.ordered ++ x ∷ [] })

abbrev pub next : Graph → List String → Sorting → Option Sorting
next g [] s = none
next g (x ∷ rest) s = some (place g x rest s)

-- The loop, which places another extension in each round.
unfoldable pub place_all : ℕ → Graph → Sorting → Sorting
place_all zero g s = s
place_all (suc fuel) g s = elim (next g s.ready s) [ none ↦ s | some t ↦ place_all fuel g t ]

-- `none` is the `RuntimeError`.
unfoldable pub topological_order : Graph → Option (List String)
unfolding place_all
topological_order g =
    let s = place_all (length (nodes g)) g (start_sorting g) in
    if same_number (length s.ordered) (length (nodes g)) then some s.ordered else none
