-- ===== src/Session/State.antt =====
-- tau_agent/session/memory.py: the state that append-only entries replay to.
pub mod Compaction
pub mod Context
use Prim.Native.String.{◌++◌ as append}
use tau_prime.Prelude.{
  String, Bool, true, false, Option, none, some, List, [], ◌∷◌, ◌++◌, map, contains, if◌then◌else◌,
}
use tau_prime.Messages.{AgentMessage, user_text, JsonObject}
use tau_prime.Session.Entries.{
  SessionEntry, EntryBody, message, model_change, thinking_level_change, compaction, branch_summary,
  label, leaf, session_info, custom,
}
use tau_prime.Session.Tree.{TreeResult, ok, err, out_of_fuel, path_to_entry}

-- A row of the replay: the id of the entry that gave the message, and the message.
abbrev pub Row : Type 0
Row = String × AgentMessage

abbrev pub row_ids : List Row → List String
row_ids [] = []
row_ids ((id, m) ∷ rows) = id ∷ row_ids rows

abbrev pub row_messages : List Row → List AgentMessage
row_messages [] = []
row_messages ((id, m) ∷ rows) = m ∷ row_messages rows

pub record SessionState : Type 0 where
  pub messages : List AgentMessage
  pub model : Option String
  pub thinking_level : Option String
  pub label : Option String
  pub active_leaf_id : Option String
  pub session_info : Option SessionEntry
  pub custom_entries : List SessionEntry
  pub compaction_entries : List SessionEntry
  pub context_entry_ids : List String
  pub entries : List SessionEntry

unfoldable pub format_compaction_summary : String → String
format_compaction_summary summary = append "Previous conversation summary:\n" summary

unfoldable pub format_branch_summary : String → String
format_branch_summary summary =
    append "The following is a summary of a branch that this conversation came back from:\n"
      (append "<summary>\n" (append summary "\n</summary>"))

-- The row that stands for what a compaction entry replaces.
abbrev pub summary_row : String → String → Row
summary_row id summary = (id, user_text (format_compaction_summary summary))

-- The loop of `_apply_compaction` over the rows left, `inserted` telling whether the summary is in.
pub compact_rows : List String → Row → Bool → List Row → List Row
compact_rows replaced summary inserted [] = if inserted then [] else summary ∷ []
compact_rows replaced summary inserted ((id, m) ∷ rows) =
    if contains replaced id
    then (if inserted
        then compact_rows replaced summary true rows
        else summary ∷ compact_rows replaced summary true rows)
    else (id, m) ∷ compact_rows replaced summary inserted rows

unfoldable pub apply_compaction : List Row → String → String → List String → List Row
unfolding compact_rows
apply_compaction rows id summary replaces =
    compact_rows replaces (summary_row id summary) false rows

-- The variables of `from_entries` while it replays.
pub record Replay : Type 0 where
  pub rows : List Row
  pub model : Option String
  pub thinking_level : Option String
  pub label : Option String
  pub active_leaf_id : Option String
  pub session_info : Option SessionEntry
  pub custom_entries : List SessionEntry
  pub compaction_entries : List SessionEntry

abbrev pub start : Option String → Replay
start leaf_id = record {
  rows = [];
  model = none;
  thinking_level = none;
  label = none;
  active_leaf_id = leaf_id;
  session_info = none;
  custom_entries = [];
  compaction_entries = [];
}

-- The `match entry.type` of the loop.
pub replay_body : Replay → SessionEntry → EntryBody → Replay
replay_body r e (message m) = record r { rows = r.rows ++ (e.id, m) ∷ [] }
replay_body r e (model_change m) = record r { model = some m }
replay_body r e (thinking_level_change l) = record r { thinking_level = l }
replay_body r e (label l) = record r { label = some l }
replay_body r e (leaf l) = record r { active_leaf_id = l }
replay_body r e (session_info _ _ _) = record r { session_info = some e }
replay_body r e (custom _ _) = record r { custom_entries = r.custom_entries ++ e ∷ [] }
replay_body r e (compaction summary replaces _) = record r {
  compaction_entries = r.compaction_entries ++ e ∷ [];
  rows = apply_compaction r.rows e.id summary replaces;
}
replay_body r e (branch_summary summary _) = record r {
  rows = r.rows ++ (e.id, user_text (format_branch_summary summary)) ∷ [];
}

pub replay : Replay → List SessionEntry → Replay
replay r [] = r
replay r (e ∷ es) = replay (replay_body r e e.body) es

-- The `return cls(…)`.
pub finish : List SessionEntry → Replay → SessionState
finish entries r = record {
  messages = row_messages r.rows;
  model = r.model;
  thinking_level = r.thinking_level;
  label = r.label;
  active_leaf_id = r.active_leaf_id;
  session_info = r.session_info;
  custom_entries = r.custom_entries;
  compaction_entries = r.compaction_entries;
  context_entry_ids = row_ids r.rows;
  entries = entries;
}

-- The `leaf_id` argument: not given, or `None`, or an id.
pub data LeafChoice : Type 0 where
  unset : LeafChoice
  at : Option String → LeafChoice

-- The entries that are replayed.
pub replay_entries : List SessionEntry → LeafChoice → TreeResult (List SessionEntry)
replay_entries entries unset = ok entries
replay_entries entries (at none) = ok []
replay_entries entries (at (some leaf_id)) = path_to_entry entries leaf_id

abbrev pub resolved_leaf_id : LeafChoice → Option String
resolved_leaf_id unset = none
resolved_leaf_id (at leaf_id) = leaf_id

-- `from_entries` from where the entries to replay are known.
pub reconstruct : LeafChoice → TreeResult (List SessionEntry) → TreeResult SessionState
unfolding replay finish replay_body
reconstruct choice (ok es) = ok (finish es (replay (start (resolved_leaf_id choice)) es))
reconstruct choice (err e) = err e
reconstruct choice out_of_fuel = out_of_fuel

unfoldable pub from_entries : List SessionEntry → LeafChoice → TreeResult SessionState
unfolding replay_entries reconstruct
from_entries entries choice = reconstruct choice (replay_entries entries choice)
