-- ===== src/Session/Entries.antt =====
-- tau_agent/session/entries.py
use tau_prime.Prelude.{String, Option, List}
use tau_prime.Messages.{JsonObject, AgentMessage}

-- What tells the entry classes apart: the `type` field with the fields of that class.
pub data EntryBody : Type 0 where
  message : AgentMessage → EntryBody
  model_change : String → EntryBody
  thinking_level_change : Option String → EntryBody
  compaction :
      (summary : String) (replaces_entry_ids : List String) (details : Option JsonObject)
      → EntryBody
  branch_summary : (summary : String) (branch_root_id : Option String) → EntryBody
  label : String → EntryBody
  leaf : Option String → EntryBody
  session_info : (created_at : String) (cwd : Option String) (title : Option String) → EntryBody
  custom : (namespace : String) (payload : JsonObject) → EntryBody

-- `BaseSessionEntry`: a timestamp is carried as its literal.
pub record SessionEntry : Type 0 where
  pub id : String
  pub parent_id : Option String
  pub timestamp : String
  pub body : EntryBody
