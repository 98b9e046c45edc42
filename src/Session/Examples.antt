-- ===== src/Session/Examples.antt =====
-- Tests of the session model, and the theorems about it at concrete entries.
use tau_prime.Prelude.{
  ◌≡◌, refl, String, Option, none, some, List, [], ◌∷◌, reverse, contains, Distinct, ◌==◌,
  if◌then◌else◌,
}
use tau_prime.Messages.{user_text}
use tau_prime.Session.Entries.{SessionEntry, EntryBody, message, compaction, label}
use tau_prime.Session.Tree.{TreeResult, ok, err, cycle_detected, ids, entries_by_id, path_to_entry}
use tau_prime.Session.Tree.Lineage.{stop, step}
use tau_prime.Session.Tree.Index.{Keyed, entries_by_id-Keyed}
use tau_prime.Session.Tree.Path.{
  Justified, path_to_entry-Justified, path_to_entry_complete, path_to_entry-Distinct,
}
use tau_prime.Session.Jsonl.{
  Adapter, ok as ok_lines, invalid_line, is_blank, split_lines, universal_newlines, read_all,
}
use tau_prime.Session.Jsonl.Storage.{append_entries, read_all-append_entries}
use tau_prime.Session.State.{
  format_compaction_summary, SessionState, at, from_entries, apply_compaction, summary_row, Row,
}
use tau_prime.Session.State.Compaction.{Splits, apply_compaction-Splits}
use tau_prime.Session.State.Context.{visible, from_entries-visible, from_entries-Distinct}

abbrev entry : String → Option String → EntryBody → SessionEntry
entry id parent body = record { id = id; parent_id = parent; timestamp = "0"; body = body }

abbrev root_entry : SessionEntry
root_entry = entry "a" none (message (user_text "hello"))

abbrev reply_entry : SessionEntry
reply_entry = entry "b" (some "a") (message (user_text "more"))

abbrev side_entry : SessionEntry
side_entry = entry "x" (some "a") (message (user_text "elsewhere"))

abbrev summary_entry : SessionEntry
summary_entry = entry "c" (some "b") (compaction "short" ("a" ∷ "b" ∷ []) none)

abbrev history : List SessionEntry
history = root_entry ∷ reply_entry ∷ side_entry ∷ summary_entry ∷ []

abbrev main_path : List SessionEntry
main_path = root_entry ∷ reply_entry ∷ summary_entry ∷ []

path_runs : path_to_entry history "c" ≡ ok main_path
unfolding path_to_entry
path_runs = refl

cycle_runs :
    path_to_entry (entry "a" (some "b") (label "l") ∷ entry "b" (some "a") (label "l") ∷ []) "a"
    ≡ err (cycle_detected "a")
unfolding path_to_entry
cycle_runs = refl

abbrev rebuilt : TreeResult SessionState
rebuilt = from_entries history (at (some "c"))

abbrev rows : List Row
rows = ("a", user_text "hello") ∷ ("b", user_text "more") ∷ ("d", user_text "last") ∷ []

path_to_entry-Justified_example : Justified history "c" (path_to_entry history "c")
path_to_entry-Justified_example = path_to_entry-Justified history "c"

path_to_entry_complete_example :
    path_to_entry history "c" ≡ ok (reverse (summary_entry ∷ reply_entry ∷ root_entry ∷ []))
path_to_entry_complete_example =
    path_to_entry_complete history "c" (summary_entry ∷ reply_entry ∷ root_entry ∷ [])
      (refl, (refl, (refl, (refl, tt)))) (step refl (step refl (step refl stop)))

path_to_entry-Distinct_example : Distinct (ids main_path)
path_to_entry-Distinct_example = path_to_entry-Distinct history "c" main_path path_runs

entries_by_id-Keyed_example : Keyed history (entries_by_id history)
entries_by_id-Keyed_example = entries_by_id-Keyed history

apply_compaction-Splits_example :
    Splits
      ("b" ∷ "z" ∷ [])
      (summary_row "c" "short")
      rows
      (apply_compaction rows "c" "short" ("b" ∷ "z" ∷ []))
apply_compaction-Splits_example = apply_compaction-Splits rows "c" "short" ("b" ∷ "z" ∷ [])

-- The state that `from_entries` rebuilds at the compaction.
abbrev short_state : SessionState
short_state = record {
  messages = user_text "Previous conversation summary:\nshort" ∷ [];
  model = none;
  thinking_level = none;
  label = none;
  active_leaf_id = some "c";
  session_info = none;
  custom_entries = [];
  compaction_entries = summary_entry ∷ [];
  context_entry_ids = "c" ∷ [];
  entries = main_path;
}

rebuilt_runs : rebuilt ≡ ok short_state
unfolding from_entries path_to_entry apply_compaction format_compaction_summary
rebuilt_runs = refl

from_entries-visible_example : contains ("c" ∷ []) "a" ≡ visible main_path "a"
from_entries-visible_example =
    from_entries-visible history (at (some "c")) short_state rebuilt_runs "a"

from_entries-Distinct_example : Distinct ("c" ∷ [])
from_entries-Distinct_example = from_entries-Distinct history (some "c") short_state rebuilt_runs

-- An adapter that prints an entry by its id, and knows two ids.
abbrev by_id : Adapter
by_id = record {
  dump_json = λ e. e.id;
  validate_json = λ line.
      if line == "a" then some root_entry else if line == "b" then some reply_entry else none;
}

reads_two : read_all by_id (some "a\r\n \nb\n") ≡ ok_lines (root_entry ∷ reply_entry ∷ [])
unfolding read_all is_blank split_lines universal_newlines
reads_two = refl

reads_until_third : read_all by_id (some "a\n\nc\nb") ≡ invalid_line 3
unfolding read_all is_blank split_lines universal_newlines
reads_until_third = refl

-- The second entry's line does not parse.
read_all-append_entries_example :
    read_all by_id (append_entries by_id none (root_entry ∷ summary_entry ∷ reply_entry ∷ []))
    ≡ invalid_line 2
unfolding is_blank
read_all-append_entries_example =
    read_all-append_entries by_id (root_entry ∷ summary_entry ∷ reply_entry ∷ []) (
      record { line = refl; shown = refl },
      (record { line = refl; shown = refl }, (record { line = refl; shown = refl }, tt)),
    )
