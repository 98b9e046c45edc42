-- ===== src/Session/Jsonl.antt =====
-- tau_agent/session/jsonl.py and storage.py: a session file is one JSON line for each entry.
-- The `TypeAdapter` that prints and parses an entry is a parameter.
pub mod Storage
use Prim.Native.Char.{Char, code}
use Prim.Native.String
use Prim.Native.String.{◌++◌ as append}
use tau_prime.Prelude.{
  ℕ, zero, suc, ◌+◌, String, Bool, true, false, not, ◌&&◌, ◌||◌, Option, none, some, List, [], ◌∷◌,
  map, ltb, leb, if◌then◌else◌,
}
use tau_prime.Messages.{UserAttachment, UserMessage, AgentMessage, user, assistant, tool}
use tau_prime.Session.Entries.{SessionEntry, EntryBody, message}

-- `_SESSION_ENTRY_ADAPTER`: `dump_json(entry).decode()` and `validate_json(line)`, `none` where that
-- raises `ValidationError`.
pub record Adapter : Type 0 where
  pub dump_json : SessionEntry → String
  pub validate_json : String → Option SessionEntry

pub data JsonlResult {ℓ} (A : Type ℓ) : Type ℓ where
  ok : A → JsonlResult A
  invalid_line : ℕ → JsonlResult A

abbrev pub has_code : ℕ → Char → Bool
has_code n c = leb n (code c) && leb (code c) n

abbrev pub newline : String
newline = "\n"

-- Python's `str.isspace` for one character.
abbrev pub is_space : ℕ → Bool
is_space c =
    (leb 9 c && leb c 13)
    || (leb 28 c && leb c 32)
    || (leb 133 c && leb c 133)
    || (leb 160 c && leb c 160)
    || (leb 5760 c && leb c 5760)
    || (leb 8192 c && leb c 8202)
    || (leb 8232 c && leb c 8233)
    || (leb 8239 c && leb c 8239)
    || (leb 8287 c && leb c 8287)
    || (leb 12288 c && leb c 12288)

-- `not line.strip()`
unfoldable pub is_blank : String → Bool
is_blank String.[] = true
is_blank (String.◌∷◌ c s) = is_space (code c) && is_blank s

push : Char → List String → List String
push c [] = (String.◌∷◌ c String.[]) ∷ []
push c (l ∷ ls) = (String.◌∷◌ c l) ∷ ls

-- `text.split("\n")`
unfoldable pub split_lines : String → List String
unfolding push
split_lines String.[] = String.[] ∷ []
split_lines (String.◌∷◌ c s) =
    let rest = split_lines s in if has_code 10 c then String.[] ∷ rest else push c rest

-- `read_text` reads `\r\n` and `\r` as `\n`.
unfoldable pub universal_newlines : Bool → String → String
universal_newlines after_return String.[] = String.[]
universal_newlines after_return (String.◌∷◌ c s) =
    if has_code 13 c
    then append newline (universal_newlines true s)
    else if has_code 10 c
    then (if after_return
        then universal_newlines false s
        else append newline (universal_newlines false s))
    else String.◌∷◌ c (universal_newlines false s)

module _ (adapter : Adapter) where
  unfoldable pub entry_to_json_line : SessionEntry → String
  entry_to_json_line entry = append (adapter.dump_json entry) newline

  abbrev pub parsed : ℕ → Option SessionEntry → JsonlResult SessionEntry
  parsed line_number (some entry) = ok entry
  parsed line_number none = invalid_line line_number

  -- The error carries the line number that the source puts in its text.
  unfoldable pub entry_from_json_line : String → ℕ → JsonlResult SessionEntry
  entry_from_json_line line line_number = parsed line_number (adapter.validate_json line)

  abbrev pub and_then :
      JsonlResult SessionEntry → JsonlResult (List SessionEntry) → JsonlResult (List SessionEntry)
  and_then (invalid_line n) rest = invalid_line n
  and_then (ok e) (invalid_line n) = invalid_line n
  and_then (ok e) (ok es) = ok (e ∷ es)

  -- The loop of `entries_from_json_lines`, from the line number `index` on.
  unfoldable pub entries_from : ℕ → List String → JsonlResult (List SessionEntry)
  unfolding entry_from_json_line
  entries_from index [] = ok []
  entries_from index (line ∷ lines) =
      let rest = entries_from (index + 1) lines in
      if is_blank line then rest else and_then (entry_from_json_line line index) rest

  unfoldable pub entries_from_json_lines : List String → JsonlResult (List SessionEntry)
  unfolding entries_from
  entries_from_json_lines lines = entries_from 1 lines

  -- `JsonlSessionStorage`: the file's text, `none` where there is no file.
  unfoldable pub append_entry : Option String → SessionEntry → Option String
  unfolding entry_to_json_line
  append_entry none entry = some (entry_to_json_line entry)
  append_entry (some text) entry = some (append text (entry_to_json_line entry))

  unfoldable pub read_all : Option String → JsonlResult (List SessionEntry)
  unfolding entries_from_json_lines
  read_all none = ok []
  read_all (some text) = entries_from_json_lines (split_lines (universal_newlines false text))
