-- ===== src/Mcp/SessionActivity/History.antt =====
-- The record of a session of src/depthfusion/mcp/session_activity.py as a function of its calls.

use depthfusion.Mcp.SessionActivity.{
  files_under, max_tracked_tool_calls, collect_files, fresh_activity, text, several, number, other,
  number, several, last, file_arg_keys, context_pct_keys, find_pct, Argument, record_activity,
  add_file, add_files, SessionActivity,
}
use depthfusion.Common.Dict.{lookup, Dict}
use depthfusion.Common.{
  drop-drop, length-append, append_assoc, length-drop, ◌+◌, append-nil, drop-append, ◌∙◌, sym, map,
  ap, option_beq, inr, inl, Bool-cases, refl, ◌-◌, drop, eq_iff, Option_eq, String_eq, arith, ◌++◌,
  ◌||◌, length, false, some, ◌≡◌, none, ltb, [], ◌==◌, any, if◌then◌else◌, ◌∷◌, Bool, contains,
  List, String, Option, ℕ,
}

-- A tool call: the session, the tool and the arguments that it came with
pub record Call : Type 0 where
  pub session_id : Option String
  pub tool_name : String
  pub arguments : Option (Dict String Argument)

abbrev pub arguments_of : Call → Dict String Argument
arguments_of call = elim call.arguments [ none ↦ [] | some arguments ↦ arguments ]

abbrev pub after_call : SessionActivity → Call → SessionActivity
after_call activity call = record_activity activity call.tool_name (arguments_of call)

-- The record after some calls, in their order
abbrev pub after_calls : SessionActivity → List Call → SessionActivity
after_calls activity [] = activity
after_calls activity (call ∷ calls) = after_calls (after_call activity call) calls

-- The file is named by an argument that the code reads.
unfoldable pub mentions_under : Dict String Argument → String → String → Bool
mentions_under arguments file key = elim (lookup key arguments) [
  | none ↦ false
  | some (text f) ↦ f == file
  | some (several items) ↦ contains (some file) items
  | some (number n) ↦ false
  | some other ↦ false
]

unfoldable pub mentions : String → Call → Bool
mentions file call = any (mentions_under (arguments_of call) file) file_arg_keys

-- The number of the last call that has one, or `pct`
abbrev pub latest_pct : Option ℕ → List Call → Option ℕ
latest_pct pct [] = pct
latest_pct pct (call ∷ calls) =
    latest_pct
      (elim (find_pct (arguments_of call) context_pct_keys) [ none ↦ pct | some n ↦ some n ]) calls

trim-last :
    (n : ℕ) (xs : List String)
    → (if ltb n (length xs) then drop (length xs - n) xs else xs) ≡ last n xs
unfolding drop
trim-last n xs = elim (Bool-cases (ltb n (length xs))) [
  | inl longer ↦ ground arith
  | inr short ↦
      let same : 0 ≡ length xs - n = ground arith in ground (arith, ap (λ (k : ℕ). drop k xs) same)
]

last-last :
    (n : ℕ) (xs : List String) (x : String) → last n (last n xs ++ x ∷ []) ≡ last n (xs ++ x ∷ [])
last-last n xs x =
    let k = length xs - n in
    let zs = xs ++ x ∷ [] in
    let same : last n xs ++ x ∷ [] ≡ drop k zs = sym (drop-append k xs (x ∷ []) (omega arith)) in
    let count : k + (length (drop k zs) - n) ≡ length zs - n =
      omega (arith, length-drop k zs, length-append xs (x ∷ [])) in
    ap (last n) same ∙ drop-drop k (length (drop k zs) - n) zs ∙ ap (λ (m : ℕ). drop m zs) count

contains-add_file :
    (file f : String) (files : List String)
    → (file == "") ≡ false
    → contains file (add_file files f) ≡ (f == file || contains file files)
unfolding add_file contains
contains-add_file file f files solid = ground (arith, eq_iff f file, eq_iff f "", eq_iff file "")

contains-add_files :
    (file : String) (files : List String) (items : List (Option String))
    → (file == "") ≡ false
    → contains file (add_files files items) ≡ (contains (some file) items || contains file files)
unfolding add_files contains option_beq
contains-add_files file files [] solid = refl
contains-add_files file files (none ∷ items) solid = contains-add_files file files items solid
contains-add_files file files (some f ∷ items) solid = ground (
  arith,
  contains-add_files file (add_file files f) items solid,
  contains-add_file file f files solid,
)

contains-files_under :
    (file : String) (arguments : Dict String Argument) (files : List String) (key : String)
    → (file == "") ≡ false
    → contains file (files_under arguments files key)
      ≡ (mentions_under arguments file key || contains file files)
unfolding files_under mentions_under
contains-files_under file arguments files key solid = go (lookup key arguments) refl
  where
    go :
        (found : Option Argument)
        → lookup key arguments ≡ found
        → contains file (files_under arguments files key)
          ≡ (mentions_under arguments file key || contains file files)
    go none at = ground (arith, at)
    go (some (text f)) at = ground (arith, at, contains-add_file file f files solid)
    go (some (several items)) at = ground (arith, at, contains-add_files file files items solid)
    go (some (number n)) at = ground (arith, at)
    go (some other) at = ground (arith, at)

contains-collect_files :
    (file : String) (arguments : Dict String Argument) (files keys : List String)
    → (file == "") ≡ false
    → contains file (collect_files arguments files keys)
      ≡ (any (mentions_under arguments file) keys || contains file files)
unfolding collect_files any
contains-collect_files file arguments files [] solid = refl
contains-collect_files file arguments files (key ∷ keys) solid = ground (
  arith,
  contains-collect_files file arguments (files_under arguments files key) keys solid,
  contains-files_under file arguments files key solid,
)

abbrev pub names_of : List Call → List String
names_of calls = map (λ call. call.tool_name) calls

after_calls-tool_calls :
    (past : List String) (activity : SessionActivity) (calls : List Call)
    → activity.tool_calls ≡ last max_tracked_tool_calls past
    → (after_calls activity calls).tool_calls ≡ last max_tracked_tool_calls (past ++ names_of calls)
unfolding record_activity
after_calls-tool_calls past activity [] start =
    start ∙ ap (last max_tracked_tool_calls) (sym (append-nil past))
after_calls-tool_calls past activity (call ∷ calls) start =
    after_calls-tool_calls (past ++ call.tool_name ∷ []) (after_call activity call) calls (
      trim-last max_tracked_tool_calls (activity.tool_calls ++ call.tool_name ∷ [])
      ∙ ap (λ (t : List String). last max_tracked_tool_calls (t ++ call.tool_name ∷ [])) start
      ∙ last-last max_tracked_tool_calls past call.tool_name)
    ∙ ap (last max_tracked_tool_calls) (append_assoc past (call.tool_name ∷ []) (names_of calls))

after_calls-files :
    (file : String) (activity : SessionActivity) (calls : List Call)
    → (file == "") ≡ false
    → contains file (after_calls activity calls).files_modified
      ≡ (any (mentions file) calls || contains file activity.files_modified)
unfolding any mentions record_activity
after_calls-files file activity [] solid = refl
after_calls-files file activity (call ∷ calls) solid = ground (
  arith,
  after_calls-files file (after_call activity call) calls solid,
  contains-collect_files file (arguments_of call) activity.files_modified file_arg_keys solid,
)

after_calls-context_pct :
    (activity : SessionActivity) (calls : List Call)
    → (after_calls activity calls).context_pct ≡ latest_pct activity.context_pct calls
unfolding record_activity
after_calls-context_pct activity [] = refl
after_calls-context_pct activity (call ∷ calls) =
    after_calls-context_pct (after_call activity call) calls

-- The record of a session is a function of its calls: the tools are those of the last fifty calls,
-- in their order, a file with a name is recorded exactly where some call mentions it, and the
-- percentage is that of the last call that gives one.
pub after_calls_lem :
    (calls : List Call) (file : String)
    → (file == "") ≡ false
    → ((after_calls fresh_activity calls).tool_calls ≡ last 50 (names_of calls))
      × (contains file (after_calls fresh_activity calls).files_modified
          ≡ any (mentions file) calls)
      × ((after_calls fresh_activity calls).context_pct ≡ latest_pct none calls)
unfolding contains drop
after_calls_lem calls file solid = (
  after_calls-tool_calls [] fresh_activity calls refl,
  ground (arith, after_calls-files file fresh_activity calls solid),
  after_calls-context_pct fresh_activity calls,
)
