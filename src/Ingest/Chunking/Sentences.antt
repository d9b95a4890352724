-- ===== src/Ingest/Chunking/Sentences.antt =====
-- `SentenceBoundaryChunker.chunk` of src/depthfusion/ingest/chunking.py: it ends, no chunk is too
-- long, and no letter is lost.

use depthfusion.Ingest.Chunking.Progressing.{
  flush-IsOnTrack, cut-IsOnTrack, widths-append, AllWithin, IsOnTrack,
}
use depthfusion.Ingest.Chunking.Letters.{
  letters-split_sentences, letters-take-drop, letters-strip, length-strip-le, letters_all-append,
  letters, letters_all,
}
use depthfusion.Ingest.Chunking.{
  split_sentences, strip, chunk_sentences, add_sentences, add_part, hard_split, Text, Progress,
  flush,
}
use depthfusion.Common.{
  is_empty, ◌*◌, length-take, zero, length-drop, take, ltb, subst, Bool-cases, none, select, drop,
  suc, append_assoc, refl, sym, some, ◌∙◌, ◌<◌, append-nil, ap, inr, inl, arith, [], ◌+◌, ◌≤◌, ◌≡◌,
  ◌∷◌, length, ◌++◌, List, ℕ,
}

hard_split_lem :
    (max_chars fuel : ℕ) (seen : Text) (state : Progress) (sentence : Text)
    → 0 < max_chars
    → length sentence < fuel
    → IsOnTrack max_chars seen state
    → (next : Progress) × (rest : Text) × (hard_split max_chars fuel state sentence
        ≡ some (next, rest))
      × (length rest ≤ max_chars)
      × (seen_now : Text) × IsOnTrack max_chars seen_now next
      × (seen_now ++ letters rest ≡ seen ++ letters sentence)
unfolding hard_split
hard_split_lem max_chars zero seen state sentence positive enough ok = absurd (omega arith)
hard_split_lem max_chars (suc fuel) seen state sentence positive enough ok =
    elim (Bool-cases (ltb max_chars (length sentence))) [
      | inr short ↦ (state, sentence, ground arith, ground arith, seen, ok, refl)
      | inl long ↦
          let piece = take max_chars sentence in
          let (next, rest, ran, small, now, on_track, same) =
            hard_split_lem max_chars fuel (seen ++ letters piece)
              (record (flush state) { chunks = (flush state).chunks ++ piece ∷ [] })
              (drop max_chars sentence) positive (ground (arith, length-drop max_chars sentence))
              (cut-IsOnTrack max_chars seen state piece ok
                (omega (arith, length-take max_chars sentence))) in
          (
            next,
            rest,
            ground (arith, ran),
            small,
            now,
            on_track,
            same
                ∙ append_assoc seen (letters piece) (letters (drop max_chars sentence))
                ∙ ap (◌++◌ seen) (letters-take-drop max_chars sentence),
          )
    ]

append-IsOnTrack :
    (max_chars : ℕ) (seen : Text) (state : Progress) (part : Text)
    → IsOnTrack max_chars seen state
    → state.current_len + length part ≤ max_chars
    → IsOnTrack max_chars (seen ++ letters part) (record state {
      current_parts = state.current_parts ++ part ∷ [];
      current_len = state.current_len + length part + 1;
    })
append-IsOnTrack max_chars seen state part ok room = record {
  short = ok.short;
  counted = omega (arith, ok.counted, widths-append state.current_parts (part ∷ []));
  fits = omega arith;
  whole =
      ap (◌++◌ (letters_all state.chunks)) (
        letters_all-append state.current_parts (part ∷ [])
        ∙ ap (◌++◌ (letters_all state.current_parts)) (append-nil (letters part)))
      ∙ sym
          (append_assoc (letters_all state.chunks) (letters_all state.current_parts) (letters part))
      ∙ ap (λ (t : Text). t ++ letters part) ok.whole;
}

add_part-IsOnTrack :
    (max_chars : ℕ) (seen : Text) (state : Progress) (part : Text)
    → IsOnTrack max_chars seen state
    → length part ≤ max_chars
    → IsOnTrack max_chars (seen ++ letters part) (add_part max_chars state part)
unfolding add_part is_empty select
add_part-IsOnTrack max_chars seen state [] ok small =
    subst (λ (t : Text). IsOnTrack max_chars t state) (sym (append-nil seen)) ok
add_part-IsOnTrack max_chars seen state (c ∷ part) ok small =
    let (flushed, none_left, zero_len) = flush-IsOnTrack max_chars seen state ok in
    elim (Bool-cases (ltb max_chars (state.current_len + length (c ∷ part) + 1))) [
      | inl over ↦ rw over (
          append-IsOnTrack max_chars seen (flush state) (c ∷ part) flushed
            (omega (arith, zero_len)))
      | inr under ↦ rw under (append-IsOnTrack max_chars seen state (c ∷ part) ok (ground arith))
    ]

add_sentences_step :
    (max_chars : ℕ) (state next : Progress) (sentence rest : Text) (sentences : List Text)
    → hard_split max_chars (suc (length sentence)) state (strip sentence) ≡ some (next, rest)
    → add_sentences max_chars state (sentence ∷ sentences)
      ≡ add_sentences max_chars (add_part max_chars next rest) sentences
unfolding add_sentences
add_sentences_step max_chars state next sentence rest sentences ran = ground (arith, ran)

add_sentences-IsOnTrack :
    (max_chars : ℕ) (seen : Text) (state : Progress) (sentences : List Text)
    → 0 < max_chars
    → IsOnTrack max_chars seen state
    → (done : Progress) × (add_sentences max_chars state sentences ≡ some done)
      × IsOnTrack max_chars (seen ++ letters_all sentences) done
unfolding add_sentences
add_sentences-IsOnTrack max_chars seen state [] positive ok =
    (state, refl, subst (λ (t : Text). IsOnTrack max_chars t state) (sym (append-nil seen)) ok)
add_sentences-IsOnTrack max_chars seen state (sentence ∷ sentences) positive ok =
    let (next, rest, ran, small, now, on_track, same) =
      hard_split_lem max_chars (suc (length sentence)) seen state (strip sentence) positive
        (omega (arith, length-strip-le sentence)) ok in
    let (done, finished, track) =
      add_sentences-IsOnTrack max_chars (now ++ letters rest) (add_part max_chars next rest)
        sentences positive (add_part-IsOnTrack max_chars now next rest on_track small) in
    (
      done,
      add_sentences_step max_chars state next sentence rest sentences ran ∙ finished,
      subst (λ (t : Text). IsOnTrack max_chars t done)
          (ap (λ (t : Text). t ++ letters_all sentences)
              (same ∙ ap (◌++◌ seen) (letters-strip sentence))
            ∙ append_assoc seen (letters sentence) (letters_all sentences))
          track,
    )

chunk_sentences_ends :
    (max_tokens : ℕ) (c : ℕ) (text : Text) (done : Progress)
    → add_sentences
        (max_tokens * 4)
        (record { chunks = []; current_parts = []; current_len = 0 })
        (split_sentences (c ∷ text))
      ≡ some done
    → chunk_sentences max_tokens (c ∷ text) ≡ some (flush done).chunks
unfolding chunk_sentences
chunk_sentences_ends max_tokens c text done ran = ground (arith, ran)

-- For a positive limit the chunking by sentences ends on every text. None of its chunks is longer
-- than the limit of four characters for each token, and the chunks have the letters of the text,
-- which are its characters but the spaces, all of them and in their order.
pub chunk_sentences_lem :
    (max_tokens : ℕ) (text : Text)
    → 0 < max_tokens
    → (chunks : List Text) × (chunk_sentences max_tokens text ≡ some chunks)
      × AllWithin (max_tokens * 4) chunks
      × (letters_all chunks ≡ letters text)
unfolding chunk_sentences select
chunk_sentences_lem max_tokens [] positive = ([], refl, tt, refl)
chunk_sentences_lem max_tokens (c ∷ text) positive =
    let (done, ran, track) =
      add_sentences-IsOnTrack (max_tokens * 4) []
        (record { chunks = []; current_parts = []; current_len = 0 }) (split_sentences (c ∷ text))
        (omega arith) (record { short = tt; counted = refl; fits = omega arith; whole = refl }) in
    let (flushed, none_left, zero_len) =
      flush-IsOnTrack (max_tokens * 4) (letters_all (split_sentences (c ∷ text))) done track in
    (
      (flush done).chunks,
      chunk_sentences_ends max_tokens c text done ran,
      flushed.short,
      sym (append-nil (letters_all (flush done).chunks))
          ∙ sym
              (ap (λ (ps : List Text). letters_all (flush done).chunks ++ letters_all ps) none_left)
          ∙ flushed.whole
          ∙ letters-split_sentences (c ∷ text),
    )

-- With a limit of no characters the hard split of a sentence never ends, however many passes it
-- has.
pub hard_split_diverges :
    (fuel : ℕ) (state : Progress) (c : ℕ) (sentence : Text)
    → hard_split 0 fuel state (c ∷ sentence) ≡ none
unfolding hard_split drop
hard_split_diverges zero state c sentence = refl
hard_split_diverges (suc fuel) state c sentence = ground (
  arith,
  hard_split_diverges fuel
      (record (flush state) { chunks = (flush state).chunks ++ take 0 (c ∷ sentence) ∷ [] }) c
      sentence,
)
