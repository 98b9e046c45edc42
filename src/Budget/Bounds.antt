-- ===== src/Budget/Bounds.antt =====
-- On the budgets of `compaction_budget` in tau_coding/smart_compaction.py.
use tau_prime.Prelude.{ℕ, ◌+◌, ◌≤◌, ◌/◌, max, arith}
use tau_prime.Budget.{CompactionBudget, compaction_budget}

-- A budget for a window of `window` tokens of which `fixed_tokens` are taken by other things.
pub record IsSafe (window fixed_tokens : ℕ) (b : CompactionBudget) : Type 0 where
  pub some_threshold : 1 ≤ b.threshold_tokens
  -- room for the answer
  pub reserved : 513 ≤ window → b.threshold_tokens + 512 ≤ window
  pub keeps : 1 ≤ b.keep_recent_tokens
  pub keeps_at_most : b.keep_recent_tokens ≤ max 512 (window / 2)
  -- what is kept fits beside the fixed part with room for a summary
  pub fits :
      fixed_tokens + 1025 ≤ b.threshold_tokens
      → b.keep_recent_tokens + fixed_tokens + 1024 ≤ b.threshold_tokens
  pub reads : 512 ≤ b.summary_input_tokens
  -- what the summary is made of fits with room for the summary
  pub summary_fits : 1024 ≤ b.threshold_tokens → b.summary_input_tokens + 512 ≤ b.threshold_tokens

-- For a window of at least one token: the threshold is at least 1, and leaves at least 512 tokens of a
-- window of 513 or more; at least one recent token is kept, and at most 512 or half of the window if
-- that is more; if the threshold is 1025 or more above the fixed tokens, what is kept fits beside
-- them with 1024 to spare; the input of the summary is at least 512 tokens, and leaves 512 of a
-- threshold of 1024 or more.
pub compaction_budget-IsSafe :
    (summary_share : ℕ → ℕ) (window fixed_tokens requested : ℕ)
    → 1 ≤ window
    → IsSafe window fixed_tokens (compaction_budget summary_share window fixed_tokens requested)
unfolding compaction_budget
compaction_budget-IsSafe summary_share window fixed_tokens requested some_window = record {
  some_threshold = omega arith;
  reserved = λ h. omega (arith, h, some_window);
  keeps = omega arith;
  keeps_at_most = omega (arith, some_window);
  fits = λ h. omega (arith, h, some_window);
  reads = omega arith;
  summary_fits = λ h. omega (arith, h, some_window);
}
