-- ===== src/Ingest/Chunking.antt =====
-- src/depthfusion/ingest/chunking.py: the two strategies that split a text into chunks. A text is
-- the list of its characters' code points. Each loop has fuel, and `none` is a loop that ran out
-- of it.

use depthfusion.Common.{
  is_empty, zero, drop, min, ◌-◌, take, ◌||◌, ℕ_eq, ◌&&◌, suc, ◌*◌, ◌+◌, ltb, ◌++◌, [], some,
  contains, true, false, none, leb, length, ◌∷◌, if◌then◌else◌, Bool, List, Option, ℕ,
}
pub mod Letters
pub mod Progressing
pub mod Sentences
pub mod Windows

abbrev pub Text : Type 0
Text = List ℕ

-- `str.isspace`, which is also what `\s` matches
unfoldable pub is_space : ℕ → Bool
is_space c =
    contains c (
      9 ∷ 10 ∷ 11 ∷ 12 ∷ 13 ∷ 28 ∷ 29 ∷ 30 ∷ 31 ∷ 32 ∷ 133 ∷ 160 ∷ 5760 ∷ 8232 ∷ 8233 ∷ 8239 ∷ 8287
      ∷ 12288 ∷ [])
    || (leb 8192 c && leb c 8202)

unfoldable pub lstrip : Text → Text
lstrip [] = []
lstrip (c ∷ text) = let rest = lstrip text in if is_space c then rest else c ∷ text

unfoldable pub rstrip : Text → Text
rstrip [] = []
rstrip (c ∷ text) = elim (rstrip text) [
  | [] ↦ if is_space c then [] else c ∷ []
  | d ∷ rest ↦ c ∷ d ∷ rest
]

-- `str.strip`
unfoldable pub strip : Text → Text
strip text = rstrip (lstrip text)

-- One of `.!?`
unfoldable pub is_mark : ℕ → Bool
is_mark c = contains c (33 ∷ 46 ∷ 63 ∷ [])

-- `_SENTENCE_END_RE.split`: `current` is the text since the last separator. A separator is a run of
-- spaces after a mark; in one, each further space is skipped.
unfoldable pub split_from : Bool → Bool → Text → Text → List Text
split_from after_mark skipping current [] = current ∷ []
split_from after_mark skipping current (c ∷ text) =
    let skip = split_from false true current text in
    let begin = split_from false true [] text in
    let step = split_from (is_mark c) false (current ++ c ∷ []) text in
    if is_space c && skipping
    then skip
    else if is_space c && after_mark
    then current ∷ begin
    else step

unfoldable pub split_sentences : Text → List Text
split_sentences text = split_from false false [] text

-- `" ".join`
unfoldable pub join : List Text → Text
join [] = []
join (part ∷ []) = part
join (part ∷ next ∷ parts) = part ++ 32 ∷ join (next ∷ parts)

-- The variables of `SentenceBoundaryChunker.chunk`
pub record Progress : Type 0 where
  pub chunks : List Text
  pub current_parts : List Text
  pub current_len : ℕ

-- The current parts become a chunk, if there are any.
unfoldable pub flush : Progress → Progress
flush state = if is_empty state.current_parts then state else record {
  chunks = state.chunks ++ join state.current_parts ∷ [];
  current_parts = [];
  current_len = 0;
}

-- The hard split of a sentence that is longer than the limit
unfoldable pub hard_split : ℕ → ℕ → Progress → Text → Option (Progress × Text)
hard_split max_chars zero state sentence = none
hard_split max_chars (suc fuel) state sentence = elim (ltb max_chars (length sentence)) [
  | false ↦ some (state, sentence)
  | true ↦
      hard_split max_chars fuel
        (record (flush state) { chunks = (flush state).chunks ++ take max_chars sentence ∷ [] })
        (drop max_chars sentence)
]

-- What is left of a sentence joins the current parts, after a flush where they would be too long.
unfoldable pub add_part : ℕ → Progress → Text → Progress
add_part max_chars state part =
    let roomy =
      if ltb max_chars (state.current_len + length part + 1) then flush state else state in
    if is_empty part then state else record roomy {
      current_parts = roomy.current_parts ++ part ∷ [];
      current_len = roomy.current_len + length part + 1;
    }

unfoldable pub add_sentences : ℕ → Progress → List Text → Option Progress
add_sentences max_chars state [] = some state
add_sentences max_chars state (sentence ∷ sentences) =
    elim (hard_split max_chars (suc (length sentence)) state (strip sentence)) [
      | none ↦ none
      | some (next, rest) ↦ add_sentences max_chars (add_part max_chars next rest) sentences
    ]

unfoldable pub chunk_sentences : ℕ → Text → Option (List Text)
chunk_sentences max_tokens [] = some []
chunk_sentences max_tokens (c ∷ text) =
    elim (add_sentences (max_tokens * 4)
      (record { chunks = []; current_parts = []; current_len = 0 }) (split_sentences (c ∷ text))) [
        | none ↦ none
        | some state ↦ some (flush state).chunks
      ]

-- `FixedSizeChunker`, with its sizes in characters
pub record FixedSizeChunker : Type 0 where
  pub chunk_chars : ℕ
  pub overlap_chars : ℕ
  pub step_chars : ℕ

-- `none` is the `ValueError`.
unfoldable pub new_fixed_size : ℕ → ℕ → Option FixedSizeChunker
new_fixed_size chunk_tokens overlap_tokens =
    if leb chunk_tokens overlap_tokens
    then none
    else some (record {
      chunk_chars = chunk_tokens * 4;
      overlap_chars = overlap_tokens * 4;
      step_chars = chunk_tokens * 4 - overlap_tokens * 4;
    })

unfoldable pub chunks_from : FixedSizeChunker → Text → ℕ → ℕ → Option (List Text)
chunks_from sizes text zero start = none
chunks_from sizes text (suc fuel) start =
    let end = min (start + sizes.chunk_chars) (length text) in
    let chunk = strip (take (end - start) (drop start text)) in
    let kept = if is_empty chunk then [] else chunk ∷ [] in
    elim (ltb start (length text)) [
      | false ↦ some []
      | true ↦ elim (leb (length text) end) [
        | true ↦ some kept
        | false ↦ elim (chunks_from sizes text fuel (start + sizes.step_chars)) [
          | none ↦ none
          | some later ↦ some (kept ++ later)
        ]
      ]
    ]

unfoldable pub chunk_windows : FixedSizeChunker → Text → Option (List Text)
chunk_windows sizes text = chunks_from sizes text (suc (length text)) 0
