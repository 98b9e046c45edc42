-- ===== src/Thinking/Cycle.antt =====
-- On `next_thinking_level` of tau_coding/thinking.py and the modes that are available.
use native.Mathlib.Nat.{mod_self, mod-eq_of_lt, mod-lt}
use tau_prime.Prelude.{
  ℕ, zero, suc, ◌+◌, ◌%◌, ◌<◌, String, true, false, Option, none, some, List, [], ◌∷◌, ◌++◌, ◌≡◌,
  refl, ap, ◌∙◌, arith, contains, length, length-append, eq_refl, Option-cases, inl, inr,
}
use tau_prime.Thinking.{
  thinking_levels, index_of, get, normalize_thinking_level, position_of, item_after,
  next_thinking_level,
}

-- The first of a list of modes.
abbrev pub first : List String → Option String
first [] = none
first (l ∷ ls) = some l

index_of-append :
    (before after : List String) (l : String)
    → contains before l ≡ false
    → index_of (before ++ l ∷ after) l ≡ some (length before)
index_of-append [] after l new = rw (eq_refl l) refl
index_of-append (b ∷ before) after l new = ground (arith, index_of-append before after l)

get-zero : (ls : List String) → get ls 0 ≡ first ls
get-zero [] = refl
get-zero (l ∷ ls) = refl

get-past :
    (before after : List String) (l : String)
    → get (before ++ l ∷ after) (suc (length before)) ≡ first after
get-past [] after l = get-zero after
get-past (b ∷ before) after l = get-past before after l

-- The item after `l`, or the first where `l` is the last.
get-after :
    (before after : List String) (l : String)
    → get (before ++ l ∷ after) ((length before + 1) % length (before ++ l ∷ after))
      ≡ first (after ++ (before ++ l ∷ after))
get-after before [] l =
    let whole : (length before + 1 ≡ length (before ++ l ∷ [])) =
      omega (arith, length-append before (l ∷ [])) in
    rw whole (rw (mod_self (length (before ++ l ∷ []))) (get-zero (before ++ l ∷ [])))
get-after before (a ∷ after) l =
    let within : (suc (length before) < length (before ++ l ∷ a ∷ after)) =
      omega (arith, length-append before (l ∷ a ∷ after)) in
    let next : (length before + 1 ≡ suc (length before)) = omega arith in
    rw next (rw (mod-eq_of_lt within) (get-past before (a ∷ after) l))

get-contains :
    (ls : List String) (i : ℕ)
    → i < length ls
    → (l : String) × (get ls i ≡ some l) × (contains ls l ≡ true)
get-contains [] i h = absurd (omega (arith, h))
get-contains (l ∷ ls) zero h = (l, refl, rw (eq_refl l) refl)
get-contains (l ∷ ls) (suc i) h =
    let rest = get-contains ls i (omega (arith, h)) in (rest.0, rest.1, ground (arith, rest.2))

item_after-contains :
    (a : String) (others : List String) (o : Option ℕ)
    → (l : String) × (item_after (a ∷ others) o ≡ some l) × (contains (a ∷ others) l ≡ true)
item_after-contains a others none = (a, refl, rw (eq_refl a) refl)
item_after-contains a others (some i) =
    get-contains (a ∷ others) ((i + 1) % length (a ∷ others)) (mod-lt (i + 1) (omega arith))

module _ (strip_lower : String → String) where
  -- Whatever the current mode is, and whether it is known or not, the next one is among those that
  -- are available, if any is.
  pub next_thinking_level-contains :
      (current : Option String) (a : String) (others : List String)
      → (l : String) × (next_thinking_level strip_lower current (a ∷ others) ≡ some l)
        × (contains (a ∷ others) l ≡ true)
  unfolding next_thinking_level
  next_thinking_level-contains current a others =
      item_after-contains a others
        (position_of (normalize_thinking_level strip_lower current) (a ∷ others))

  unfold_next :
      (current : Option String) (ls : List String) (i : ℕ)
      → position_of (normalize_thinking_level strip_lower current) ls ≡ some i
      → next_thinking_level strip_lower current ls ≡ item_after ls (some i)
  unfolding next_thinking_level
  unfold_next current [] i h = elim (Option-cases (normalize_thinking_level strip_lower current)) [
    | inl unknown ↦ absurd (ground (arith, h, ap (λ o. position_of o []) unknown))
    | inr (l, known) ↦ absurd (ground (arith, h, ap (λ o. position_of o []) known))
  ]
  unfold_next current (a ∷ others) i h = rw h refl

  -- The mode after `level` is the one that stands behind it among those that are available, and the
  -- first of them where it is the last, if it is a known mode that `strip` and `lower` leave alone.
  pub next_thinking_level-first :
      (before after : List String) (level : String)
      → strip_lower level ≡ level
      → contains thinking_levels level ≡ true
      → contains before level ≡ false
      → next_thinking_level strip_lower (some level) (before ++ level ∷ after)
        ≡ first (after ++ (before ++ level ∷ after))
  next_thinking_level-first before after level plain known new =
      unfold_next (some level) (before ++ level ∷ after) (length before)
        (rw plain (rw known (index_of-append before after level new)))
      ∙ get-after before after level
