-- ===== src/Tests/TextCases.antt =====
-- Short texts in chunks, tool calls of two sessions, and an expression of the dashboard.
use depthfusion.Ingest.Chunking.Progressing.{AllWithin}
use depthfusion.Ingest.Chunking.Letters.{letters, letters_all}
use depthfusion.Mcp.SessionActivity.{last, number, fresh_activity, text}
use depthfusion.Common.Dict.{lookup}
use depthfusion.Common.{
  ℕ_eq, String_eq, none, ◌+◌, any, pos, refl, contains, arith, ◌⊎◌, not, select, is_empty, zero,
  ◌==◌, ◌≡◌, if◌then◌else◌, ◌∷◌, [], ℕ, false, some, List, String,
}
use depthfusion.Ingest.Chunking.{
  chunk_sentences, chunk_windows, new_fixed_size, Text, FixedSizeChunker,
}
use depthfusion.Ingest.Chunking.Sentences.{chunk_sentences_lem}
use depthfusion.Ingest.Chunking.Windows.{chunk_windows_lem}
use depthfusion.Mcp.SessionActivity.History.{
  latest_pct, mentions, names_of, after_calls, after_calls_lem, Call,
}
use depthfusion.Mcp.SessionActivity.Sessions.{is_of, record_all_lem, record_all}
use depthfusion.Utils.Expressions.Safety.{evaluate_admin_expression_safe, AllSafe}
use depthfusion.Utils.Expressions.{
  evaluate_admin_expression, Node, Python, bin_op, constant, call, name, next, end, pow, gives,
}

abbrev two_sentences : Text
two_sentences = 65 ∷ 66 ∷ 46 ∷ 32 ∷ 67 ∷ 68 ∷ 69 ∷ 70 ∷ 71 ∷ 33 ∷ []

chunk_sentences_lem_example :
    (chunks : List Text) × (chunk_sentences 1 two_sentences ≡ some chunks)
    × AllWithin 4 chunks
    × (letters_all chunks ≡ letters two_sentences)
chunk_sentences_lem_example = chunk_sentences_lem 1 two_sentences (omega arith)

abbrev small_windows : FixedSizeChunker
small_windows = record { chunk_chars = 4; overlap_chars = 0; step_chars = 4 }

chunk_windows_lem_example :
    (chunks : List Text) × (chunk_windows small_windows two_sentences ≡ some chunks)
    × AllWithin 4 chunks
    × ((¬ (0 ≡ zero)) ⊎ (letters_all chunks ≡ letters two_sentences))
unfolding new_fixed_size
chunk_windows_lem_example = chunk_windows_lem 1 0 small_windows two_sentences refl

abbrev call_of : String → String → Call
call_of session file = record {
  session_id = some session;
  tool_name = "edit";
  arguments = some (("file_path", text file) ∷ ("context_pct", number 40) ∷ []);
}

abbrev sample_calls : List Call
sample_calls = call_of "s1" "a.py" ∷ call_of "s2" "b.py" ∷ call_of "s1" "c.py" ∷ []

after_calls_lem_example :
    ((after_calls fresh_activity sample_calls).tool_calls ≡ last 50 (names_of sample_calls))
    × (contains "b.py" (after_calls fresh_activity sample_calls).files_modified
        ≡ any (mentions "b.py") sample_calls)
    × ((after_calls fresh_activity sample_calls).context_pct ≡ latest_pct none sample_calls)
after_calls_lem_example = after_calls_lem sample_calls "b.py" refl

record_all_lem_example : lookup "s1" (record_all [] sample_calls) ≡ (
    if is_empty (select (is_of "s1") sample_calls)
    then none
    else some (after_calls fresh_activity (select (is_of "s1") sample_calls)))
record_all_lem_example = record_all_lem "s1" sample_calls

-- Objects that are only natural numbers
abbrev numbers : Python ℕ
numbers = record {
  literal = λ s. if s == "2" then 2 else 3;
  true_object = 1;
  false_object = 0;
  none_object = 0;
  is_true = λ v. not (v == 0);
  as_int = λ v. some (pos v);
  is_sequence = λ v. false;
  binary = λ op left right. gives (left + right);
  unary = λ op v. gives v;
  compares = λ op left right. gives 1;
  builtin = λ func args. gives 0;
  collect = λ kind vs. gives 0;
}

abbrev power_tree : Node
power_tree = bin_op pow (constant "2") (call (name "abs") (next (constant "3") end) false)

evaluate_admin_expression_safe_example :
    AllSafe numbers (evaluate_admin_expression numbers (λ s. some power_tree) (50 ∷ [])).0
evaluate_admin_expression_safe_example =
    evaluate_admin_expression_safe numbers (λ s. some power_tree) (50 ∷ [])
