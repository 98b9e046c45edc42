-- ===== src/Thinking.antt =====
-- tau_coding/thinking.py: the thinking modes of a session and the cycle through them. A mode is a
-- string, as in the source; `strip_lower` is Python's `value.strip().lower()`.
pub mod Cycle
pub mod Modes
mod Examples
use tau_prime.Prelude.{
  ℕ, zero, suc, ◌+◌, ◌%◌, String, Bool, true, false, ◌||◌, Option, none, some, List, [], ◌∷◌, ◌==◌,
  contains, length, if◌then◌else◌,
}

-- `THINKING_LEVELS`
abbrev pub thinking_levels : List String
thinking_levels = "off" ∷ "minimal" ∷ "low" ∷ "medium" ∷ "high" ∷ "xhigh" ∷ []

-- `DEFAULT_THINKING_LEVEL`
abbrev pub default_thinking_level : String
default_thinking_level = "medium"

-- What `normalize_thinking_levels` returns or raises.
pub data ModesResult : Type 0 where
  modes : List String → ModesResult
  no_modes : ModesResult
  unknown_mode : String → ModesResult
  repeated_modes : ModesResult

-- `len(set(normalized)) != len(normalized)`
abbrev pub has_repeat : List String → Bool
has_repeat [] = false
has_repeat (l ∷ ls) = contains ls l || has_repeat ls

abbrev pub index_of : List String → String → Option ℕ
index_of [] x = none
index_of (l ∷ ls) x =
    let rest = index_of ls x in
    if l == x then some 0 else elim rest [ none ↦ none | some i ↦ some (suc i) ]

abbrev pub get : List String → ℕ → Option String
get [] i = none
get (l ∷ ls) zero = some l
get (l ∷ ls) (suc i) = get ls i

-- The tokens that Anthropic's extended thinking may use in a mode other than "off".
abbrev pub budget_of : String → ℕ
budget_of level =
    if level == "minimal"
    then 1024
    else if level == "low"
    then 2048
    else if level == "medium"
    then 4096
    else if level == "high"
    then 8192
    else 16384

abbrev pub position_of : Option String → List String → Option ℕ
position_of none available = none
position_of (some level) available = index_of available level

-- `available[(index + 1) % len(available)]`, and `available[0]` after the `ValueError`. `none`
-- stands for an `IndexError`.
abbrev pub item_after : List String → Option ℕ → Option String
item_after available none = get available 0
item_after available (some index) = get available ((index + 1) % length available)

abbrev pub with_level : String → ModesResult → ModesResult
with_level level (modes levels) = modes (level ∷ levels)
with_level level r = r

-- One value before the others, which are read only if it is known.
abbrev pub read_value : String → Option String → ModesResult → ModesResult
read_value v none rest = unknown_mode v
read_value v (some level) rest = with_level level rest

abbrev pub without_repeat : ModesResult → ModesResult
without_repeat (modes levels) = if has_repeat levels then repeated_modes else modes levels
without_repeat r = r

module _ (strip_lower : String → String) where
  -- `none` stands for the `ValueError`.
  abbrev pub normalize_thinking_level : Option String → Option String
  normalize_thinking_level none = some default_thinking_level
  normalize_thinking_level (some value) =
      if contains thinking_levels (strip_lower value) then some (strip_lower value) else none

  -- The generator's values in order, up to the first that raises.
  abbrev pub normalize_all : List String → ModesResult
  normalize_all [] = modes []
  normalize_all (v ∷ vs) =
      let rest = normalize_all vs in read_value v (normalize_thinking_level (some v)) rest

  unfoldable pub normalize_thinking_levels : List String → ModesResult
  normalize_thinking_levels [] = no_modes
  normalize_thinking_levels (v ∷ vs) = without_repeat (normalize_all (v ∷ vs))

  abbrev pub effort_of : Option String → Option String
  effort_of none = none
  effort_of (some level) = if level == "off" then some "none" else some level

  unfoldable pub reasoning_effort_for_level : Option String → Option String
  reasoning_effort_for_level level = effort_of (normalize_thinking_level level)

  abbrev pub tokens_of : Option String → Option (Option ℕ)
  tokens_of none = none
  tokens_of (some level) = if level == "off" then some none else some (some (budget_of level))

  -- `none` where the mode is unknown, `some none` where thinking is off.
  unfoldable pub anthropic_thinking_budget_for_level : Option String → Option (Option ℕ)
  anthropic_thinking_budget_for_level level = tokens_of (normalize_thinking_level level)

  unfoldable pub next_thinking_level : Option String → List String → Option String
  next_thinking_level current [] = some default_thinking_level
  next_thinking_level current (a ∷ others) =
      item_after (a ∷ others) (position_of (normalize_thinking_level current) (a ∷ others))
