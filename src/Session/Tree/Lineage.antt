-- ===== src/Session/Tree/Lineage.antt =====
-- What tree.py means by a path: the chain of parents from an id up to a root, over any table of
-- entries.
use tau_prime.Prelude.{
  ◌≤◌, ◌≡◌, refl, ap, ap₂, sym, subst, String, Option, none, some, List, [], ◌∷◌, length, arith,
}
use native.Mathlib.Nat.{le_refl}
use tau_prime.Session.Entries.{SessionEntry}

module _ (find : String → Option SessionEntry) where
  -- The entries met on the way up, the leaf first.
  pub data Lineage : Option String → List SessionEntry → Type 0 where
    stop : Lineage none []
    step :
        {id : String} {e : SessionEntry} {up : List SessionEntry}
        → find id ≡ some e
        → Lineage e.parent_id up
        → Lineage (some id) (e ∷ up)

  -- The second place is reached from the first by going to parents.
  pub data Ascends : Option String → Option String → Type 0 where
    here : {c : Option String} → Ascends c c
    parent :
        {id : String} {e : SessionEntry} {c : Option String}
        → find id ≡ some e
        → Ascends e.parent_id c
        → Ascends (some id) c

  -- At least one parent step.
  pub record IsBelow (id : String) (c : Option String) : Type 0 where
    pub entry : SessionEntry
    pub found : find id ≡ some entry
    pub above : Ascends entry.parent_id c

module _ {find : String → Option SessionEntry} where
  pub Ascends-parent :
      {a : Option String} {id : String} {e : SessionEntry}
      → Ascends find a (some id)
      → find id ≡ some e
      → Ascends find a e.parent_id
  Ascends-parent here h = parent h here
  Ascends-parent (parent g r) h = parent g (Ascends-parent r h)

  pub Lineage-unique :
      {c : Option String} {xs ys : List SessionEntry}
      → Lineage find c xs
      → Lineage find c ys
      → xs ≡ ys
  Lineage-unique stop stop = refl
  Lineage-unique (step {e = e} f l) (step {e = e'} {up = up'} g m) =
      let same : e ≡ e' = cc in
      ap₂ ◌∷◌ same (Lineage-unique l (subst (λ x. Lineage find x.parent_id up') (sym same) m))

  -- Whoever has a lineage has one from every place above, and it is no longer.
  pub Lineage-above :
      {a b : Option String} {xs : List SessionEntry}
      → Lineage find a xs
      → Ascends find a b
      → (ys : List SessionEntry) × Lineage find b ys × (length ys ≤ length xs)
  Lineage-above {xs = xs} l here = (xs, l, le_refl _)
  Lineage-above (step {e = e} {up = up} f l) (parent {e = e'} g r) =
      let same : e ≡ e' = cc in
      let (ys, m, short) = Lineage-above (subst (λ x. Lineage find x.parent_id up) same l) r in
      (ys, m, omega arith)

  -- A cycle on the way up leaves no lineage.
  pub IsBelow-no-Lineage :
      {id : String} {xs : List SessionEntry}
      → Lineage find (some id) xs
      → IsBelow find id (some id)
      → ⊥
  IsBelow-no-Lineage {xs = xs} (step {e = e} {up = up} f l) b =
      let same : e ≡ b.entry = cc (f, b.found) in
      let (ys, m, short) =
        Lineage-above (subst (λ x. Lineage find x.parent_id up) same l) b.above in
      let long : ys ≡ e ∷ up = Lineage-unique m (step f l) in absurd (omega (arith, ap length long))
