-- ===== src/Mcp/SessionActivity/Sessions.antt =====
-- The sessions of src/depthfusion/mcp/session_activity.py do not mix, however their calls
-- interleave.

use depthfusion.Common.Dict.{lookup-put, put, lookup}
use depthfusion.Mcp.SessionActivity.History.{after_calls, after_call, Call}
use depthfusion.Mcp.SessionActivity.{
  fresh_activity, named, Sessions, record_tool_call, SessionActivity,
}
use depthfusion.Common.{
  beq_refl, eq_iff, ◌∙◌, ap, is_empty, not, String_eq, ◌&&◌, ◌==◌, arith, inr, refl, Option-cases,
  false, inl, Bool-cases, if◌then◌else◌, none, [], ◌≡◌, Bool, some, ◌∷◌, List, String, select,
  Option,
}

abbrev pub record_all : Sessions → List Call → Sessions
record_all sessions [] = sessions
record_all sessions (call ∷ calls) =
    record_all (record_tool_call sessions call.session_id call.tool_name call.arguments) calls

-- The call is of the session, and it names a tool.
unfoldable pub is_of : String → Call → Bool
is_of id call =
    elim (named call.session_id) [ none ↦ false | some session_id ↦ session_id == id ]
    && not (call.tool_name == "")

-- What is known of a session after some of its calls
abbrev pub resume : Option SessionActivity → List Call → Option SessionActivity
resume known [] = known
resume known (call ∷ calls) =
    resume
      (some (after_call (elim known [ none ↦ fresh_activity | some activity ↦ activity ]) call))
      calls

resume-some :
    (activity : SessionActivity) (calls : List Call)
    → resume (some activity) calls ≡ some (after_calls activity calls)
resume-some activity [] = refl
resume-some activity (call ∷ calls) = resume-some (after_call activity call) calls

abbrev known_or_fresh : Option SessionActivity → SessionActivity
known_or_fresh known = elim known [ none ↦ fresh_activity | some activity ↦ activity ]

record_tool_call-put :
    (id : String) (call : Call) (sessions : Sessions)
    → named call.session_id ≡ some id
    → (call.tool_name == "") ≡ false
    → record_tool_call sessions call.session_id call.tool_name call.arguments
      ≡ put id (after_call (known_or_fresh (lookup id sessions)) call) sessions
unfolding record_tool_call
record_tool_call-put id call sessions at tool = ground (arith, at, tool)

record_tool_call-lookup :
    (id : String) (call : Call) (sessions : Sessions)
    → lookup id (record_tool_call sessions call.session_id call.tool_name call.arguments)
      ≡ (if is_of id call then resume (lookup id sessions) (call ∷ []) else lookup id sessions)
unfolding record_tool_call is_of
record_tool_call-lookup id call sessions = elim (Option-cases (named call.session_id)) [
  | inl nobody ↦ ground (arith, nobody)
  | inr (other, at) ↦ elim (Bool-cases (call.tool_name == "")) [
    | inl no_tool ↦ ground (arith, at, no_tool)
    | inr tool ↦ elim (Bool-cases (other == id)) [
      | inr apart ↦
          ap (lookup id) (record_tool_call-put other call sessions at tool)
          ∙ lookup-put other id (after_call (known_or_fresh (lookup other sessions)) call) sessions
          ∙ rw (at, apart) refl
      | inl same ↦
          let mine = at ∙ ap some ((eq_iff other id).0 same) in
          ap (lookup id) (record_tool_call-put id call sessions mine tool)
          ∙ lookup-put id id (after_call (known_or_fresh (lookup id sessions)) call) sessions
          ∙ rw (mine, beq_refl id, tool) refl
    ]
  ]
]

record_all-resume :
    (id : String) (sessions : Sessions) (calls : List Call)
    → lookup id (record_all sessions calls) ≡ resume (lookup id sessions) (select (is_of id) calls)
unfolding select
record_all-resume id sessions [] = refl
record_all-resume id sessions (call ∷ calls) =
    let next = record_tool_call sessions call.session_id call.tool_name call.arguments in
    let step = record_tool_call-lookup id call sessions in
    let rest = select (is_of id) calls in
    elim (Bool-cases (is_of id call)) [
      | inl mine ↦
          record_all-resume id next calls
          ∙ ap (λ (o : Option SessionActivity). resume o rest) step
          ∙ rw mine refl
      | inr other ↦
          record_all-resume id next calls
          ∙ ap (λ (o : Option SessionActivity). resume o rest) step
          ∙ rw other refl
    ]

-- After any calls of any sessions, a session without a call of its own that names a tool has no
-- record, and the record of each other session is the one that its own calls alone make.
pub record_all_lem :
    (id : String) (calls : List Call)
    → lookup id (record_all [] calls) ≡ (
        if is_empty (select (is_of id) calls)
        then none
        else some (after_calls fresh_activity (select (is_of id) calls)))
unfolding lookup is_empty
record_all_lem id calls = record_all-resume id [] calls ∙ resumed (select (is_of id) calls)
  where
    resumed :
        (mine : List Call)
        → resume none mine
          ≡ (if is_empty mine then none else some (after_calls fresh_activity mine))
    resumed [] = refl
    resumed (call ∷ mine) = resume-some (after_call fresh_activity call) mine
