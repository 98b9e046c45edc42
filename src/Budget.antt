-- ===== src/Budget.antt =====
-- tau_coding/smart_compaction.py: the budgets of a compaction pass, and the choice of the blocks of
-- text that fit into one.
pub mod Bounds
pub mod Blocks
pub mod Tokens
mod Examples
use Prim.Native.Char.{Char}
use Prim.Native.String
use tau_prime.Prelude.{
  ℕ, suc, ◌+◌, ◌-◌, ◌/◌, min, max, String, Bool, true, false, List, [], ◌∷◌, reverse, leb,
  if◌then◌else◌,
}

-- `CompactionBudget`
pub record CompactionBudget : Type 0 where
  pub threshold_tokens : ℕ
  pub keep_recent_tokens : ℕ
  pub summary_input_tokens : ℕ

abbrev pub min_keep_recent_tokens : ℕ
min_keep_recent_tokens = 512

-- `min(16_384, max(512, window // 5))`
abbrev pub reserve_of : ℕ → ℕ
reserve_of window = min 16384 (max 512 (window / 5))

abbrev pub threshold_of : ℕ → ℕ
threshold_of window = max 1 (window - reserve_of window)

abbrev pub available_of : ℕ → ℕ → ℕ
available_of threshold fixed_tokens = max 1 (threshold - fixed_tokens - 1024)

-- `int(window * MAX_KEEP_RECENT_FRACTION)` with the fraction 0.50 halves the window.
abbrev pub keep_cap_of : ℕ → ℕ
keep_cap_of window = max min_keep_recent_tokens (window / 2)

-- `summary_share` is `int(window * 0.42)`, computed with floats. A difference that is negative in
-- the source is 0 here, which the `max` around it makes the same.
unfoldable pub compaction_budget : (ℕ → ℕ) → ℕ → ℕ → ℕ → CompactionBudget
compaction_budget summary_share context_window_tokens fixed_tokens requested_keep_recent_tokens =
    let window = max 1 context_window_tokens in
    let threshold = threshold_of window in
    record {
      threshold_tokens = threshold;
      keep_recent_tokens =
          min (max 1 requested_keep_recent_tokens)
            (min (keep_cap_of window) (available_of threshold fixed_tokens));
      summary_input_tokens = max 512 (min (summary_share window) (threshold - 512));
    }

-- `len(text)`
unfoldable pub text_length : String → ℕ
text_length String.[] = 0
text_length (String.◌∷◌ c s) = suc (text_length s)

-- The line break before a block that is not the first of those selected.
abbrev pub separator : Bool → ℕ
separator true = 1
separator false = 0

-- The loop over the blocks, from where `used` characters are taken and some block is selected or
-- none is.
abbrev pub select_blocks : ℕ → Bool → ℕ → List String → List String
select_blocks budget selected used [] = []
select_blocks budget selected used (block ∷ blocks) =
    let cost = text_length block + separator selected in
    let rest = select_blocks budget true (used + cost) blocks in
    if leb (used + cost) budget then block ∷ rest else []

-- `_whole_blocks_from_start`
unfoldable pub whole_blocks_from_start : List String → ℕ → List String
whole_blocks_from_start blocks budget = select_blocks budget false 0 blocks

-- `_whole_blocks_from_end`
unfoldable pub whole_blocks_from_end : List String → ℕ → List String
whole_blocks_from_end blocks budget = reverse (select_blocks budget false 0 (reverse blocks))
