-- ===== src/Thinking/Examples.antt =====
-- Tests of the thinking modes, and the theorems about them at concrete modes.
use tau_prime.Prelude.{String, true, some, [], ◌∷◌, ◌≡◌, refl, contains}
use tau_prime.Thinking.{
  thinking_levels, repeated_modes, normalize_thinking_levels, next_thinking_level,
  anthropic_thinking_budget_for_level, reasoning_effort_for_level,
}
use tau_prime.Thinking.Cycle.{next_thinking_level-contains, next_thinking_level-first}
use tau_prime.Thinking.Modes.{Describes, normalize_thinking_levels-Describes}

-- A value that needs no stripping and no lowering.
abbrev plain : String → String
plain value = value

last_wraps : next_thinking_level plain (some "xhigh") thinking_levels ≡ some "off"
unfolding next_thinking_level
last_wraps = refl

high_budget : anthropic_thinking_budget_for_level plain (some "high") ≡ some (some 8192)
unfolding anthropic_thinking_budget_for_level
high_budget = refl

no_effort : reasoning_effort_for_level plain (some "off") ≡ some "none"
unfolding reasoning_effort_for_level
no_effort = refl

repeated : normalize_thinking_levels plain ("low" ∷ "low" ∷ []) ≡ repeated_modes
unfolding normalize_thinking_levels
repeated = refl

next_thinking_level-contains_example :
    (l : String) × (next_thinking_level plain (some "loud") ("low" ∷ "high" ∷ []) ≡ some l)
    × (contains ("low" ∷ "high" ∷ []) l ≡ true)
next_thinking_level-contains_example =
    next_thinking_level-contains plain (some "loud") "low" ("high" ∷ [])

next_thinking_level-first_example :
    next_thinking_level plain (some "high") ("low" ∷ "high" ∷ []) ≡ some "low"
next_thinking_level-first_example =
    next_thinking_level-first plain ("low" ∷ []) [] "high" refl refl refl

normalize_thinking_levels-Describes_example :
    Describes plain ("low" ∷ "loud" ∷ []) (normalize_thinking_levels plain ("low" ∷ "loud" ∷ []))
normalize_thinking_levels-Describes_example =
    normalize_thinking_levels-Describes plain ("low" ∷ "loud" ∷ [])
