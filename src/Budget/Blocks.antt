-- ===== src/Budget/Blocks.antt =====
-- On `_whole_blocks_from_start` and `_whole_blocks_from_end` of tau_coding/smart_compaction.py.
use mathlib.Core.List.{reverse-reverse, reverse-append, reverse-cons}
use tau_prime.Prelude.{
  ℕ, ◌+◌, ◌-◌, ◌≤◌, ◌<◌, String, Bool, true, false, List, [], ◌∷◌, ◌++◌, reverse, ◌≡◌, refl, ap,
  sym, subst, ◌∙◌, arith, leb, leb→le, Bool-cases, inl, inr,
}
use tau_prime.Budget.{
  text_length, separator, select_blocks, whole_blocks_from_start, whole_blocks_from_end,
}

-- The characters of some blocks, each with a line break.
abbrev pub weight : List String → ℕ
weight [] = 0
weight (b ∷ bs) = text_length b + 1 + weight bs

-- `len("\n".join(blocks))`
abbrev pub joined_length : List String → ℕ
joined_length bs = weight bs - 1

-- The cost of some blocks in a row.
abbrev cost : Bool → List String → ℕ
cost selected [] = 0
cost selected (b ∷ bs) = text_length b + separator selected + cost true bs

cost-weight : (bs : List String) → cost true bs ≡ weight bs
cost-weight [] = refl
cost-weight (b ∷ bs) = omega (arith, cost-weight bs)

cost-joined_length : (bs : List String) → cost false bs ≡ joined_length bs
cost-joined_length [] = refl
cost-joined_length (b ∷ bs) = omega (arith, cost-weight bs)

module _ (budget : ℕ) where
  -- The selection stops at the end or before a block that is too long for what is left.
  abbrev Stops : Bool → ℕ → List String → List String → Type 0
  Stops selected used taken [] = Unit
  Stops selected used taken (b ∷ bs) = budget < used + cost selected (taken ++ b ∷ [])

  abbrev Chosen : Bool → ℕ → List String → List String → List String → Type 0
  Chosen selected used blocks taken rest =
      (blocks ≡ taken ++ rest)
      × (used + cost selected taken ≤ budget)
      × Stops selected used taken rest

  Stops-cons :
      (selected : Bool) (used : ℕ) (b : String) (taken rest : List String)
      → Stops true (used + (text_length b + separator selected)) taken rest
      → Stops selected used (b ∷ taken) rest
  Stops-cons selected used b taken [] h = tt
  Stops-cons selected used b taken (c ∷ rest) h = omega (arith, h)

  select_blocks-Chosen :
      (selected : Bool) (used : ℕ) (blocks : List String)
      → used ≤ budget
      → (rest : List String) × Chosen selected used blocks
          (select_blocks budget selected used blocks)
          rest
  select_blocks-Chosen selected used [] h = ([], (refl, omega (arith, h), tt))
  select_blocks-Chosen selected used (b ∷ bs) h =
      elim (Bool-cases (leb (used + (text_length b + separator selected)) budget)) [
        | inl fits ↦
            let chosen =
              select_blocks-Chosen true (used + (text_length b + separator selected)) bs
                (leb→le (used + (text_length b + separator selected)) budget fits) in
            rw fits (
              chosen.0,
              (
                ap (λ l. b ∷ l) chosen.1.0,
                omega (arith, chosen.1.1),
                Stops-cons selected used b _ chosen.0 chosen.1.2,
              ),
            )
        | inr long ↦ rw long (b ∷ bs, (refl, omega (arith, h), ground (arith, long)))
      ]

  -- Either all blocks are taken, or the next one is too long for what is left.
  abbrev pub IsLongest : List String → List String → Type 0
  IsLongest taken [] = Unit
  IsLongest taken (b ∷ bs) = budget < joined_length (taken ++ b ∷ [])

  Stops-IsLongest : (taken rest : List String) → Stops false 0 taken rest → IsLongest taken rest
  Stops-IsLongest taken [] h = tt
  Stops-IsLongest taken (b ∷ rest) h = omega (arith, h, cost-joined_length (taken ++ b ∷ []))

  selected-IsLongest :
      (blocks : List String)
      → (rest : List String) × ((blocks ≡ select_blocks budget false 0 blocks ++ rest)
          × (joined_length (select_blocks budget false 0 blocks) ≤ budget)
          × IsLongest (select_blocks budget false 0 blocks) rest)
  selected-IsLongest blocks =
      let chosen = select_blocks-Chosen false 0 blocks (omega arith) in
      let taken = select_blocks budget false 0 blocks in
      (
        chosen.0,
        (
          chosen.1.0,
          omega (arith, chosen.1.1, cost-joined_length taken),
          Stops-IsLongest taken chosen.0 chosen.1.2,
        ),
      )

  -- The blocks that are taken from the start are the first ones, they fit joined by line breaks, and
  -- with the next one they would not.
  pub whole_blocks_from_start-IsLongest :
      (blocks : List String)
      → (rest : List String) × ((blocks ≡ whole_blocks_from_start blocks budget ++ rest)
          × (joined_length (whole_blocks_from_start blocks budget) ≤ budget)
          × IsLongest (whole_blocks_from_start blocks budget) rest)
  unfolding whole_blocks_from_start
  whole_blocks_from_start-IsLongest blocks = selected-IsLongest blocks

weight-append : (xs ys : List String) → weight (xs ++ ys) ≡ weight xs + weight ys
weight-append [] ys = omega arith
weight-append (x ∷ xs) ys = omega (arith, weight-append xs ys)

weight-reverse : (xs : List String) → weight (reverse xs) ≡ weight xs
weight-reverse [] = refl
weight-reverse (x ∷ xs) =
    rw (reverse-cons x xs) (omega (arith, weight-append (reverse xs) (x ∷ []), weight-reverse xs))

-- The blocks that are taken from the end are the last ones in their order, they fit joined by line
-- breaks, and with the one before them they would not.
pub whole_blocks_from_end-IsLongest :
    (budget : ℕ) (blocks : List String)
    → (rest : List String) × ((blocks ≡ reverse rest ++ whole_blocks_from_end blocks budget)
        × (joined_length (whole_blocks_from_end blocks budget) ≤ budget)
        × IsLongest budget (reverse (whole_blocks_from_end blocks budget)) rest)
unfolding whole_blocks_from_end
whole_blocks_from_end-IsLongest budget blocks =
    let chosen = selected-IsLongest budget (reverse blocks) in
    let taken = select_blocks budget false 0 (reverse blocks) in
    (
      chosen.0,
      (
        sym (reverse-reverse blocks) ∙ ap reverse chosen.1.0 ∙ reverse-append taken chosen.0,
        omega (arith, chosen.1.1, weight-reverse taken),
        subst (λ l. IsLongest budget l chosen.0) (sym (reverse-reverse taken)) chosen.1.2,
      ),
    )
