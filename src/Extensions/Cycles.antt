-- ===== src/Extensions/Cycles.antt =====
-- `_find_cycles` and `_collect_cycle_dependents` of tau_extensions/resolution.py.
pub mod Steps
pub mod Blocked
pub mod Depth
pub mod Groups
pub mod Found
pub mod Dependents
use Prim.Native.String.{compare}
use tau_prime.Prelude.{
  ℕ, zero, suc, ◌+◌, min, String, Bool, true, false, not, ◌&&◌, ◌||◌, Option, none, some, List, [],
  ◌∷◌, ◌++◌, ◌==◌, contains, length, if◌then◌else◌, sort, is_before,
}
use tau_prime.Extensions.{same_number, has_items}
use tau_prime.Extensions.Ordering.{Graph, nodes, dependencies_of, dependents}

-- The variables of `_find_cycles`. `stack` has its top first, and `on_stack` is what is in it.
pub record Components : Type 0 where
  pub index : ℕ
  pub stack : List String
  pub indices : List (String × ℕ)
  pub lowlinks : String → ℕ
  pub cycles : List (List String)

abbrev pub find_index : List (String × ℕ) → String → Option ℕ
find_index [] x = none
find_index ((y, n) ∷ rest) x = if y == x then some n else find_index rest x

abbrev pub set_lowlink : String → ℕ → Components → Components
set_lowlink x n t = record t { lowlinks = λ y. if x == y then n else t.lowlinks y }

abbrev pub enter : String → Components → Components
enter x t =
    set_lowlink x t.index
      (record t { index = t.index + 1; stack = x ∷ t.stack; indices = (x, t.index) ∷ t.indices })

-- The component down to the node, and what is left of the stack.
abbrev pub pop_component : String → List String → List String × List String
pop_component x [] = ([], [])
pop_component x (y ∷ ys) =
    let (component, rest) = pop_component x ys in
    if y == x then (y ∷ [], ys) else (y ∷ component, rest)

abbrev pub add_cycle : List String → List (List String) → List (List String)
add_cycle (x ∷ (y ∷ ys)) cycles = cycles ++ sort (x ∷ (y ∷ ys)) ∷ []
add_cycle component cycles = cycles

abbrev pub index_is : Option ℕ → ℕ → Bool
index_is none n = false
index_is (some m) n = same_number m n

-- The end of `strongconnect`.
abbrev pub leave_node : String → Components → Components
leave_node x t =
    if not (index_is (find_index t.indices x) (t.lowlinks x))
    then t
    else (let (component, rest) = pop_component x t.stack in
        record t { stack = rest; cycles = add_cycle component t.cycles })

-- A dependency that was met before: on the stack or done.
abbrev pub met_again : String → String → ℕ → Components → Components
met_again x d n t = if contains t.stack d then set_lowlink x (min (t.lowlinks x) n) t else t

-- What comes after a visit of a dependency that had not been met.
abbrev pub met_first : String → String → Components → Components
met_first x d u = set_lowlink x (min (u.lowlinks x) (u.lowlinks d)) u

-- The next step, unless the fuel has run out.
abbrev pub and_then : Option Components → (Components → Option Components) → Option Components
and_then none f = none
and_then (some t) f = f t

abbrev pub connect :
    (String → Components → Option Components)
    → String
    → String
    → Option ℕ
    → Components
    → Option Components
connect visit x d (some n) t = some (met_again x d n t)
connect visit x d none t = and_then (visit d t) (λ u. some (met_first x d u))

abbrev pub connect_all :
    (String → Components → Option Components)
    → String
    → List String
    → Components
    → Option Components
connect_all visit x [] t = some t
connect_all visit x (d ∷ ds) t =
    and_then (connect visit x d (find_index t.indices d) t) (connect_all visit x ds)

-- `strongconnect`; the fuel bounds how deep the calls are, and `none` is where it runs out.
abbrev pub strongconnect : ℕ → Graph → String → Components → Option Components
strongconnect zero g x t = none
strongconnect (suc fuel) g x t =
    and_then (connect_all (strongconnect fuel g) x (dependencies_of g x) (enter x t))
      (λ u. some (leave_node x u))

abbrev pub visit_if_new : ℕ → Graph → String → Option ℕ → Components → Option Components
visit_if_new fuel g x (some n) t = some t
visit_if_new fuel g x none t = strongconnect fuel g x t

abbrev pub visit_all : ℕ → Graph → List String → Components → Option Components
visit_all fuel g [] t = some t
visit_all fuel g (x ∷ xs) t =
    and_then (visit_if_new fuel g x (find_index t.indices x) t) (visit_all fuel g xs)

-- The order of two tuples of texts.
abbrev pub is_before_cycle : List String → List String → Bool
is_before_cycle xs [] = false
is_before_cycle [] (y ∷ ys) = true
is_before_cycle (x ∷ xs) (y ∷ ys) = is_before x y || ((x == y) && is_before_cycle xs ys)

abbrev pub insert_cycle : List String → List (List String) → List (List String)
insert_cycle c [] = c ∷ []
insert_cycle c (b ∷ bs) = if is_before_cycle b c then b ∷ insert_cycle c bs else c ∷ b ∷ bs

abbrev pub sort_cycles : List (List String) → List (List String)
sort_cycles [] = []
sort_cycles (c ∷ cs) = insert_cycle c (sort_cycles cs)

abbrev pub no_components : Components
no_components = record { index = 0; stack = []; indices = []; lowlinks = λ x. 0; cycles = [] }

abbrev pub sorted_cycles : Option Components → Option (List (List String))
sorted_cycles none = none
sorted_cycles (some t) = some (sort_cycles t.cycles)

-- `_find_cycles`, with as much fuel as there are nodes.
unfoldable pub find_cycles : Graph → Option (List (List String))
find_cycles g = sorted_cycles (visit_all (length (nodes g)) g (sort (nodes g)) no_components)

-- The variables of `_collect_cycle_dependents`: `seen` in the order in which it grew.
pub record Search : Type 0 where
  pub queue : List String
  pub seen : List String
  pub blocked_by_cycle : List (String × List String)

abbrev pub keys : List (String × List String) → List String
keys [] = []
keys ((x, cycle) ∷ rest) = x ∷ keys rest

-- `{member for cycle in cycles for member in cycle}`
abbrev pub members : List (List String) → List String
members [] = []
members (c ∷ cs) = c ++ members cs

-- The body of the loop over the dependents of an extension.
abbrev pub meet : List String → List String → String → Search → Search
meet cycle_members cycle y s = if contains s.seen y then s else record s {
  queue = s.queue ++ y ∷ [];
  seen = s.seen ++ y ∷ [];
  blocked_by_cycle =
      if not (contains cycle_members y) && not (contains (keys s.blocked_by_cycle) y)
      then s.blocked_by_cycle ++ (y, cycle) ∷ []
      else s.blocked_by_cycle;
}

abbrev pub meet_all : List String → List String → List String → Search → Search
meet_all cycle_members cycle [] s = s
meet_all cycle_members cycle (y ∷ ys) s =
    meet_all cycle_members cycle ys (meet cycle_members cycle y s)

abbrev pub popleft : List String → Option (String × List String)
popleft [] = none
popleft (x ∷ xs) = some (x, xs)

-- The `while queue` loop.
unfoldable pub search : ℕ → Graph → List String → List String → Search → Search
search zero g cycle_members cycle s = s
search (suc fuel) g cycle_members cycle s = elim (popleft s.queue) [
  | none ↦ s
  | some (x, rest) ↦
      search fuel g cycle_members cycle
        (meet_all cycle_members cycle (dependents g x) (record s { queue = rest }))
]

-- One cycle: it is in the queue, and no more than the other nodes come to it.
abbrev pub search_from :
    Graph → List String → List String → List (String × List String) → List (String × List String)
search_from g cycle_members cycle blocked =
    (search (length cycle + length (nodes g)) g cycle_members cycle
      (record { queue = cycle; seen = cycle; blocked_by_cycle = blocked })).blocked_by_cycle

abbrev pub search_all :
    Graph
    → List String
    → List (List String)
    → List (String × List String)
    → List (String × List String)
search_all g cycle_members [] blocked = blocked
search_all g cycle_members (c ∷ cs) blocked =
    search_all g cycle_members cs (search_from g cycle_members c blocked)

-- `_collect_cycle_dependents`
unfoldable pub collect_cycle_dependents : Graph → List (List String) → List (String × List String)
unfolding search
collect_cycle_dependents g cycles = search_all g (members cycles) cycles []
