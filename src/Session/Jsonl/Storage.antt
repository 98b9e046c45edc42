-- ===== src/Session/Jsonl/Storage.antt =====
-- On reading a session file to which entries were appended.
use Prim.Native.Char.{Char}
use Prim.Native.String.{◌++◌ as append}
use text.Mathlib.TextLemmas.{
  nil-append, cons-append, append_assoc as text-append_assoc, append-nil as text-append-nil,
}
use tau_prime.Prelude.{
  All, ℕ, ◌+◌, ◌≡◌, refl, ap, sym, ◌∙◌, String, Bool, true, false, not, ◌&&◌, Option, none, some,
  List, [], ◌∷◌, ◌++◌, map, arith,
}
use tau_prime.Session.Entries.{SessionEntry}
use tau_prime.Session.Jsonl.{
  Adapter, ok, has_code, newline, is_blank, push, split_lines, universal_newlines,
  entry_to_json_line, entry_from_json_line, and_then, parsed, entries_from, append_entry, read_all,
  JsonlResult, invalid_line,
}

-- No character of the text ends a line.
abbrev pub one_line : String → Bool
one_line String.[] = true
one_line (String.◌∷◌ c s) = not (has_code 10 c) && (not (has_code 13 c) && one_line s)

-- What `json.dumps`, which prints an entry, documents of its text: it is one line, since control
-- characters are escaped, and not a blank one.
pub record PrintsLine (adapter : Adapter) (e : SessionEntry) : Type 0 where
  pub line : one_line (adapter.dump_json e) ≡ true
  pub shown : is_blank (adapter.dump_json e) ≡ false

abbrev newline_char : Char
newline_char = "\n"

newline-append : (rest : String) → append newline rest ≡ String.◌∷◌ newline_char rest
newline-append rest =
    cons-append newline_char String.[] rest ∙ ap (String.◌∷◌ newline_char) (nil-append rest)

split_lines-append :
    (l rest : String)
    → one_line l ≡ true
    → split_lines (append l (append newline rest)) ≡ l ∷ split_lines rest
unfolding split_lines push
split_lines-append String.[] rest h = rw (nil-append, newline-append)
split_lines-append (String.◌∷◌ c l) rest h =
    rw (cons-append c l (append newline rest)) (ground (arith, split_lines-append l rest))

universal_newlines-append :
    (l rest : String)
    → one_line l ≡ true
    → universal_newlines false (append l (append newline rest))
      ≡ append l (append newline (universal_newlines false rest))
unfolding universal_newlines
universal_newlines-append String.[] rest h = rw (
  nil-append (append newline rest),
  nil-append (append newline (universal_newlines false rest)),
  newline-append rest,
)
universal_newlines-append (String.◌∷◌ c l) rest h =
    rw
      (
        cons-append c l (append newline rest),
        cons-append c l (append newline (universal_newlines false rest)),
      )
      (ground (arith, universal_newlines-append l rest))

-- What a line gives that parses to this, before what the lines behind it give.
abbrev pub before :
    ℕ → Option SessionEntry → JsonlResult (List SessionEntry) → JsonlResult (List SessionEntry)
before n none rest = invalid_line n
before n (some e) (ok es) = ok (e ∷ es)
before n (some e) (invalid_line m) = invalid_line m

module _ (adapter : Adapter) where
  -- The text of a file that holds these entries.
  text_of : List SessionEntry → String
  text_of [] = String.[]
  text_of (e ∷ es) = append (entry_to_json_line adapter e) (text_of es)

  line-append :
      (e : SessionEntry) (rest : String)
      → append (entry_to_json_line adapter e) rest
        ≡ append (adapter.dump_json e) (append newline rest)
  unfolding entry_to_json_line
  line-append e rest = text-append_assoc (adapter.dump_json e) newline rest

  universal_newlines-text_of :
      (es : List SessionEntry)
      → All (PrintsLine adapter) es
      → universal_newlines false (text_of es) ≡ text_of es
  unfolding text_of universal_newlines
  universal_newlines-text_of [] json = refl
  universal_newlines-text_of (e ∷ es) json = rw (line-append e (text_of es)) (
      rw (universal_newlines-append (adapter.dump_json e) (text_of es) json.0.line)
        (rw (universal_newlines-text_of es json.1)))

  split_lines-text_of :
      (es : List SessionEntry)
      → All (PrintsLine adapter) es
      → split_lines (text_of es) ≡ map adapter.dump_json es ++ String.[] ∷ []
  unfolding text_of split_lines
  split_lines-text_of [] json = refl
  split_lines-text_of (e ∷ es) json = rw (
    line-append e (text_of es),
    split_lines-append (adapter.dump_json e) (text_of es) json.0.line,
    split_lines-text_of es json.1,
  )

  -- What each entry's own line parses to, up to the first that does not, which is named by its place.
  abbrev pub parsed_lines : ℕ → List SessionEntry → JsonlResult (List SessionEntry)
  parsed_lines n [] = ok []
  parsed_lines n (e ∷ es) =
      before n (adapter.validate_json (adapter.dump_json e)) (parsed_lines (n + 1) es)

  before-and_then :
      (n : ℕ) (o : Option SessionEntry) (rest : JsonlResult (List SessionEntry))
      → and_then adapter (parsed adapter n o) rest ≡ before n o rest
  before-and_then n none rest = refl
  before-and_then n (some e) (ok es) = refl
  before-and_then n (some e) (invalid_line m) = refl

  entries_from-dump :
      (index : ℕ) (es : List SessionEntry)
      → All (PrintsLine adapter) es
      → entries_from adapter index (map adapter.dump_json es ++ String.[] ∷ [])
        ≡ parsed_lines index es
  unfolding entries_from entry_from_json_line is_blank
  entries_from-dump index [] json = refl
  entries_from-dump index (e ∷ es) json =
      rw (json.0.shown, entries_from-dump (index + 1) es json.1)
        (before-and_then index (adapter.validate_json (adapter.dump_json e))
          (parsed_lines (index + 1) es))

  -- The file after these entries are appended to it one by one.
  pub append_entries : Option String → List SessionEntry → Option String
  append_entries file [] = file
  append_entries file (e ∷ es) = append_entries (append_entry adapter file e) es

  append_entries-text :
      (text : String) (es : List SessionEntry)
      → append_entries (some text) es ≡ some (append text (text_of es))
  unfolding append_entries append_entry text_of
  append_entries-text text [] = ap some (sym (text-append-nil text))
  append_entries-text text (e ∷ es) =
      append_entries-text (append text (entry_to_json_line adapter e)) es
      ∙ ap some (text-append_assoc text (entry_to_json_line adapter e) (text_of es))

  read_all-text_of :
      (es : List SessionEntry)
      → All (PrintsLine adapter) es
      → read_all adapter (some (text_of es)) ≡ parsed_lines 1 es
  unfolding read_all
  read_all-text_of es json =
      rw (universal_newlines-text_of es json, split_lines-text_of es json)
        (entries_from-dump 1 es json)

  -- Where each of the entries is printed as one line that is not blank, a session file that did not
  -- exist and to which they are appended one by one is read as just these lines, in order: it gives
  -- what each entry's own line parses to, or the number of the first line that does not parse.
  pub read_all-append_entries :
      (es : List SessionEntry)
      → All (PrintsLine adapter) es
      → read_all adapter (append_entries none es) ≡ parsed_lines 1 es
  unfolding append_entries append_entry text_of
  read_all-append_entries [] json = unfold read_all in refl
  read_all-append_entries (e ∷ es) json =
      rw (append_entries-text (entry_to_json_line adapter e) es) (read_all-text_of (e ∷ es) json)
