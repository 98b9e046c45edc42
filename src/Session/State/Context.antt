-- ===== src/Session/State/Context.antt =====
-- Which entries' messages are in the context of a replayed session.
use tau_prime.Prelude.{
  ◌≡◌, refl, subst, String, Option, Bool, true, false, not, ◌&&◌, ◌||◌, List, [], ◌∷◌, ◌++◌,
  contains, Distinct, Distinct-snoc, ◌==◌, eq_iff, eq_refl, arith, none, some,
}
use tau_prime.Messages.{AgentMessage, user_text}
use tau_prime.Session.Entries.{SessionEntry, EntryBody, message, compaction, branch_summary, label}
use tau_prime.Session.Tree.{TreeResult, ok, err, out_of_fuel, ids}
use tau_prime.Session.Tree.Path.{path_to_entry-Distinct}
use tau_prime.Session.State.{
  Row, row_ids, SessionState, summary_row, compact_rows, apply_compaction, Replay, start,
  replay_body, replay, finish, LeafChoice, at, replay_entries, resolved_leaf_id, reconstruct,
  from_entries, format_branch_summary,
}

-- The entry gives the context a row.
abbrev pub shows : EntryBody → Bool
shows (message _) = true
shows (compaction _ _ _) = true
shows (branch_summary _ _) = true
shows _ = false

-- The entry takes the row of the id `x` out of the context.
abbrev pub replaces : EntryBody → String → Bool
replaces (compaction _ replaced _) x = contains replaced x
replaces _ x = false

abbrev pub any_replaces : List SessionEntry → String → Bool
any_replaces [] x = false
any_replaces (e ∷ es) x = replaces e.body x || any_replaces es x

-- The id `x` is that of an entry which gives a row and which no later entry replaces.
abbrev pub visible : List SessionEntry → String → Bool
visible [] x = false
visible (e ∷ es) x = (shows e.body && e.id == x && not (any_replaces es x)) || visible es x

compact_rows-contains :
    (replaced : List String) (summary : Row) (inserted : Bool) (rows : List Row) (x : String)
    → contains (row_ids (compact_rows replaced summary inserted rows)) x ≡ (
        (not inserted && summary.0 == x)
        || (contains (row_ids rows) x && not (contains replaced x)))
unfolding compact_rows
compact_rows-contains replaced summary true [] x = refl
compact_rows-contains replaced summary false [] x = ground arith
compact_rows-contains replaced summary true ((id, m) ∷ rows) x =
    ground (arith, compact_rows-contains replaced summary true rows x, eq_iff id x)
compact_rows-contains replaced summary false ((id, m) ∷ rows) x = ground (
  arith,
  compact_rows-contains replaced summary true rows x,
  compact_rows-contains replaced summary false rows x,
  eq_iff id x,
)

row_ids-append :
    (xs ys : List Row) (x : String)
    → contains (row_ids (xs ++ ys)) x ≡ (contains (row_ids xs) x || contains (row_ids ys) x)
row_ids-append [] ys x = refl
row_ids-append ((id, m) ∷ xs) ys x = ground (arith, row_ids-append xs ys x)

-- One entry's effect on which ids are in the context.
replay_body-contains :
    (r : Replay) (e : SessionEntry) (b : EntryBody) (x : String)
    → contains (row_ids (replay_body r e b).rows) x
      ≡ ((contains (row_ids r.rows) x && not (replaces b x)) || (shows b && e.id == x))
unfolding replay_body apply_compaction
replay_body-contains r e (message m) x = ground (arith, row_ids-append r.rows ((e.id, m) ∷ []) x)
replay_body-contains r e (branch_summary s _) x =
    ground (arith, row_ids-append r.rows ((e.id, user_text (format_branch_summary s)) ∷ []) x)
replay_body-contains r e (compaction s replaced _) x =
    ground (arith, compact_rows-contains replaced (summary_row e.id s) false r.rows x)
replay_body-contains r e (label _) x = ground arith
replay_body-contains r e _ x = ground arith

replay-contains :
    (r : Replay) (es : List SessionEntry) (x : String)
    → contains (row_ids (replay r es).rows) x
      ≡ ((contains (row_ids r.rows) x && not (any_replaces es x)) || visible es x)
unfolding replay
replay-contains r [] x = ground arith
replay-contains r (e ∷ es) x =
    ground (arith, replay-contains (replay_body r e e.body) es x, replay_body-contains r e e.body x)

-- New rows come with ids that are not in the context yet.
compact_rows-Distinct :
    (replaced : List String) (summary : Row) (inserted : Bool) (rows : List Row)
    → contains (row_ids rows) summary.0 ≡ false
    → Distinct (row_ids rows)
    → Distinct (row_ids (compact_rows replaced summary inserted rows))
unfolding compact_rows
compact_rows-Distinct replaced summary true [] new d = tt
compact_rows-Distinct replaced summary false [] new d = (refl, tt)
compact_rows-Distinct replaced summary true ((id, m) ∷ rows) new d = ground (
  arith,
  compact_rows-Distinct replaced summary true rows,
  compact_rows-contains replaced summary true rows id,
)
compact_rows-Distinct replaced summary false ((id, m) ∷ rows) new d = ground (
  arith,
  compact_rows-Distinct replaced summary true rows,
  compact_rows-Distinct replaced summary false rows,
  compact_rows-contains replaced summary true rows summary.0,
  compact_rows-contains replaced summary false rows id,
  eq_iff summary.0 id,
  eq_iff id summary.0,
)

row_ids-snoc :
    (rows : List Row) (id : String) (m : AgentMessage)
    → row_ids (rows ++ (id, m) ∷ []) ≡ row_ids rows ++ id ∷ []
row_ids-snoc [] id m = refl
row_ids-snoc ((j, n) ∷ rows) id m = rw (row_ids-snoc rows id m)

append_row-Distinct :
    (rows : List Row) (id : String) (m : AgentMessage)
    → contains (row_ids rows) id ≡ false
    → Distinct (row_ids rows)
    → Distinct (row_ids (rows ++ (id, m) ∷ []))
append_row-Distinct rows id m new d =
    rw (row_ids-snoc rows id m) (Distinct-snoc (row_ids rows) id d new)

replay_body-Distinct :
    (r : Replay) (e : SessionEntry) (b : EntryBody)
    → contains (row_ids r.rows) e.id ≡ false
    → Distinct (row_ids r.rows)
    → Distinct (row_ids (replay_body r e b).rows)
unfolding replay_body apply_compaction
replay_body-Distinct r e (message m) new d = append_row-Distinct r.rows e.id m new d
replay_body-Distinct r e (branch_summary s _) new d = append_row-Distinct r.rows e.id _ new d
replay_body-Distinct r e (compaction s replaced _) new d =
    compact_rows-Distinct replaced (summary_row e.id s) false r.rows new d
replay_body-Distinct r e (label _) new d = d
replay_body-Distinct r e _ new d = d

replay-Distinct :
    (r : Replay) (es : List SessionEntry)
    → ((x : String) → contains (ids es) x ≡ true → contains (row_ids r.rows) x ≡ false)
    → Distinct (row_ids r.rows)
    → Distinct (ids es)
    → Distinct (row_ids (replay r es).rows)
unfolding replay
replay-Distinct r [] new d ds = d
replay-Distinct r (e ∷ es) new d ds =
    replay-Distinct (replay_body r e e.body) es
      (λ x h. ground (arith, replay_body-contains r e e.body x, new x, ds.0, eq_iff e.id x))
      (replay_body-Distinct r e e.body (new e.id (ground (arith, eq_refl e.id))) d) ds.1

replay_entries-Distinct :
    (entries : List SessionEntry) (leaf_id : Option String) (es : List SessionEntry)
    → replay_entries entries (at leaf_id) ≡ ok es
    → Distinct (ids es)
unfolding replay_entries
replay_entries-Distinct entries none es h = subst (λ l. Distinct (ids l)) {x = []} (cc) tt
replay_entries-Distinct entries (some leaf_id) es h = path_to_entry-Distinct entries leaf_id es h

-- A state that comes back is the one of the entries that were replayed.
reconstruct_elim :
    (P : SessionState → Type 0) (choice : LeafChoice) (r : TreeResult (List SessionEntry))
    (s : SessionState)
    → reconstruct choice r ≡ ok s
    → ((es : List SessionEntry)
        → r ≡ ok es
        → P (finish es (replay (start (resolved_leaf_id choice)) es)))
    → P s
unfolding reconstruct
reconstruct_elim P choice (ok es) s h p =
    let same : finish es (replay (start (resolved_leaf_id choice)) es) ≡ s = cc in
    subst P same (p es refl)
reconstruct_elim P choice (err e) s h p = absurd (cc)
reconstruct_elim P choice out_of_fuel s h p = absurd (cc)

-- Exactly these ids are in the context of a replayed state: those of the replayed message, branch
-- summary and compaction entries that no later replayed compaction entry replaces.
pub from_entries-visible :
    (entries : List SessionEntry) (choice : LeafChoice) (s : SessionState)
    → from_entries entries choice ≡ ok s
    → (x : String) → contains s.context_entry_ids x ≡ visible s.entries x
unfolding from_entries
from_entries-visible entries choice s h x =
    reconstruct_elim (λ t. contains t.context_entry_ids x ≡ visible t.entries x) choice _ s h
      λ es _. unfold finish in replay-contains (start (resolved_leaf_id choice)) es x

-- Whatever entries were appended, a state rebuilt at a leaf has no entry twice in its context.
pub from_entries-Distinct :
    (entries : List SessionEntry) (leaf_id : Option String) (s : SessionState)
    → from_entries entries (at leaf_id) ≡ ok s
    → Distinct s.context_entry_ids
unfolding from_entries
from_entries-Distinct entries leaf_id s h =
    reconstruct_elim (λ t. Distinct t.context_entry_ids) (at leaf_id) _ s h
      λ es e.
        unfold finish in
        replay-Distinct (start leaf_id) es (λ x _. refl) tt
          (replay_entries-Distinct entries leaf_id es e)
