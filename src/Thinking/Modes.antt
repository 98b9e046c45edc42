-- ===== src/Thinking/Modes.antt =====
-- On what `normalize_thinking_levels` of tau_coding/thinking.py returns.
use tau_prime.Prelude.{
  String, true, false, none, some, List, [], ◌∷◌, ◌≡◌, ◌≢◌, refl, ap, sym, subst, map, arith,
  contains, Distinct, All, if◌then◌else◌, eq_refl, Bool-cases, inl, inr,
}
use tau_prime.Thinking.{
  thinking_levels, ModesResult, modes, no_modes, unknown_mode, repeated_modes, has_repeat,
  with_level, read_value, normalize_all, normalize_thinking_level, without_repeat,
  normalize_thinking_levels,
}

has_repeat-Distinct : (ls : List String) → has_repeat ls ≡ false → Distinct ls
has_repeat-Distinct [] h = tt
has_repeat-Distinct (l ∷ ls) h = (ground (arith, h), has_repeat-Distinct ls (ground (arith, h)))

repeats-Distinct : (ls : List String) → has_repeat ls ≡ true → Distinct ls → ⊥
repeats-Distinct [] h d = cc
repeats-Distinct (l ∷ ls) h d = repeats-Distinct ls (ground (arith, h, d.0)) d.1

abbrev IsKnown : String → Type 0
IsKnown level = contains thinking_levels level ≡ true

module _ (strip_lower : String → String) where
  -- The values are all known modes, or some value is not.
  abbrev Read : List String → ModesResult → Type 0
  Read values (modes levels) = (levels ≡ map strip_lower values) × All IsKnown levels
  Read values (unknown_mode v) =
      (contains values v ≡ true) × (contains thinking_levels (strip_lower v) ≡ false)
  Read values _ = ⊥

  Read-known :
      (v : String) (vs : List String) (r : ModesResult)
      → IsKnown (strip_lower v)
      → Read vs r
      → Read (v ∷ vs) (with_level (strip_lower v) r)
  Read-known v vs (modes levels) known h = (ap (λ ls. strip_lower v ∷ ls) h.0, (known, h.1))
  Read-known v vs (unknown_mode w) known h = (ground (arith, h.0), h.1)
  Read-known v vs no_modes known h = h
  Read-known v vs repeated_modes known h = h

  read_value-Read :
      (v : String) (vs : List String) (r : ModesResult)
      → Read vs r
      → Read (v ∷ vs) (read_value v (normalize_thinking_level strip_lower (some v)) r)
  read_value-Read v vs r h = elim (Bool-cases (contains thinking_levels (strip_lower v))) [
    | inl known ↦
        subst (λ b. Read (v ∷ vs) (read_value v (if b then some (strip_lower v) else none) r))
          (sym known) (Read-known v vs r known h)
    | inr unknown ↦
        subst (λ b. Read (v ∷ vs) (read_value v (if b then some (strip_lower v) else none) r))
          (sym unknown) (rw (eq_refl v) refl, unknown)
  ]

  normalize_all-Read : (values : List String) → Read values (normalize_all strip_lower values)
  normalize_all-Read [] = (refl, tt)
  normalize_all-Read (v ∷ vs) =
      read_value-Read v vs (normalize_all strip_lower vs) (normalize_all-Read vs)

  -- What the outcome says of the values.
  abbrev pub Describes : List String → ModesResult → Type 0
  Describes values (modes levels) =
      (levels ≡ map strip_lower values) × All IsKnown levels × Distinct levels × (values ≢ [])
  Describes values no_modes = values ≡ []
  Describes values (unknown_mode v) =
      (contains values v ≡ true) × (contains thinking_levels (strip_lower v) ≡ false)
  Describes values repeated_modes =
      All IsKnown (map strip_lower values) × (Distinct (map strip_lower values) → ⊥)

  without_repeat-Describes :
      (v : String) (vs : List String) (r : ModesResult)
      → Read (v ∷ vs) r
      → Describes (v ∷ vs) (without_repeat r)
  without_repeat-Describes v vs (modes levels) h = elim (Bool-cases (has_repeat levels)) [
    | inl again ↦ rw again (
      subst (All IsKnown) h.0 h.1,
      λ d. repeats-Distinct levels again (subst Distinct (sym h.0) d),
    )
    | inr once ↦ rw once (h.0, h.1, has_repeat-Distinct levels once, λ none_left. cc)
  ]
  without_repeat-Describes v vs (unknown_mode w) h = h
  without_repeat-Describes v vs no_modes h = absurd h
  without_repeat-Describes v vs repeated_modes h = absurd h

  -- The modes that are returned are the values stripped and in lower case, each known, none twice
  -- and at least one; without values an error says so, an unknown mode that is reported is one of
  -- the values and is not known, and a repetition is reported only where all are known and one
  -- stands twice.
  pub normalize_thinking_levels-Describes :
      (values : List String) → Describes values (normalize_thinking_levels strip_lower values)
  unfolding normalize_thinking_levels
  normalize_thinking_levels-Describes [] = refl
  normalize_thinking_levels-Describes (v ∷ vs) =
      without_repeat-Describes v vs (normalize_all strip_lower (v ∷ vs))
        (normalize_all-Read (v ∷ vs))
