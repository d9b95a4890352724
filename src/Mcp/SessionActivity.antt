-- ===== src/Mcp/SessionActivity.antt =====
-- src/depthfusion/mcp/session_activity.py: what the server remembers of the tool calls of each
-- session until a checkpoint. A set is a list, a percentage a number of one unit, and the summary
-- text is the number and the names that it is formatted from.

use depthfusion.Common.Sort.{str_le, sorted}
use depthfusion.Common.Dict.{put, del, lookup, Dict}
use depthfusion.Common.{
  contains, ◌||◌, ◌-◌, length, ltb, ◌==◌, String_eq, none, if◌then◌else◌, drop, ◌++◌, some, ◌∷◌,
  Option, [], List, String, ℕ,
}
pub mod History
pub mod Sessions

-- The value of an argument, as far as the code reads it: a string, a list, tuple or set whose items
-- are strings or not, a number that is not a Boolean, or anything else
pub data Argument : Type 0 where
  text : String → Argument
  several : List (Option String) → Argument
  number : ℕ → Argument
  other : Argument

pub record SessionActivity : Type 0 where
  pub tool_calls : List String
  pub files_modified : List String
  pub context_pct : Option ℕ

abbrev pub fresh_activity : SessionActivity
fresh_activity = record { tool_calls = []; files_modified = []; context_pct = none }

abbrev pub max_tracked_tool_calls : ℕ
max_tracked_tool_calls = 50

-- The last elements of a list
abbrev pub last {ℓ} : {A : Type ℓ} → ℕ → List A → List A
last n xs = drop (length xs - n) xs

-- `self.files_modified.add`, for a string that is not empty
unfoldable pub add_file : List String → String → List String
add_file files file = if file == "" || contains file files then files else file ∷ files

unfoldable pub add_files : List String → List (Option String) → List String
add_files files [] = files
add_files files (none ∷ items) = add_files files items
add_files files (some file ∷ items) = add_files (add_file files file) items

unfoldable pub files_under : Dict String Argument → List String → String → List String
files_under arguments files key = elim (lookup key arguments) [
  | none ↦ files
  | some (text file) ↦ add_file files file
  | some (several items) ↦ add_files files items
  | some (number n) ↦ files
  | some other ↦ files
]

abbrev pub file_arg_keys : List String
file_arg_keys = "files_modified" ∷ "source_files" ∷ "files" ∷ "file_path" ∷ []

unfoldable pub collect_files : Dict String Argument → List String → List String → List String
collect_files arguments files [] = files
collect_files arguments files (key ∷ keys) =
    collect_files arguments (files_under arguments files key) keys

-- The first of the keys that has a number
unfoldable pub find_pct : Dict String Argument → List String → Option ℕ
find_pct arguments [] = none
find_pct arguments (key ∷ keys) = elim (lookup key arguments) [
  | some (number n) ↦ some n
  | _ ↦ find_pct arguments keys
]

abbrev pub context_pct_keys : List String
context_pct_keys = "context_pct_at_checkpoint" ∷ "context_pct" ∷ []

-- `SessionActivity.record`
unfoldable pub record_activity : SessionActivity → String → Dict String Argument → SessionActivity
record_activity activity tool_name arguments =
    let calls = activity.tool_calls ++ tool_name ∷ [] in
    record {
      tool_calls =
          if ltb max_tracked_tool_calls (length calls)
          then drop (length calls - max_tracked_tool_calls) calls
          else calls;
      files_modified = collect_files arguments activity.files_modified file_arg_keys;
      context_pct = elim (find_pct arguments context_pct_keys) [
        | none ↦ activity.context_pct
        | some pct ↦ some pct
      ];
    }

-- `none` is the empty string.
unfoldable pub plan_state_summary : SessionActivity → Option (ℕ × List String)
plan_state_summary activity = elim activity.tool_calls [
  | [] ↦ none
  | call ∷ calls ↦ some (length (call ∷ calls), last 5 (call ∷ calls))
]

abbrev pub Sessions : Type 0
Sessions = Dict String SessionActivity

-- A session id that is there and not empty
unfoldable pub named : Option String → Option String
named none = none
named (some session_id) = if session_id == "" then none else some session_id

unfoldable pub get_activity : Sessions → Option String → Option SessionActivity
get_activity sessions session_id = elim (named session_id) [
  | none ↦ none
  | some id ↦ lookup id sessions
]

unfoldable pub record_tool_call :
    Sessions → Option String → String → Option (Dict String Argument) → Sessions
record_tool_call sessions session_id tool_name arguments = elim (named session_id) [
  | none ↦ sessions
  | some id ↦
      let activity : SessionActivity = elim (lookup id sessions) [
        | none ↦ fresh_activity
        | some activity ↦ activity
      ] in
      let given : Dict String Argument = elim arguments [
        | none ↦ []
        | some arguments ↦ arguments
      ] in
      if tool_name == ""
      then sessions
      else put id (record_activity activity tool_name given) sessions
]

unfoldable pub snapshot_for_checkpoint :
    Sessions → Option String → Option (ℕ × List String) × List String × Option ℕ
snapshot_for_checkpoint sessions session_id = elim (get_activity sessions session_id) [
  | none ↦ (none, [], none)
  | some activity ↦
      (plan_state_summary activity, sorted str_le activity.files_modified, activity.context_pct)
]

unfoldable pub clear_session : Sessions → Option String → Sessions
clear_session sessions session_id = elim (named session_id) [
  | none ↦ sessions
  | some id ↦ del id sessions
]
