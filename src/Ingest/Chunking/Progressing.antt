-- ===== src/Ingest/Chunking/Progressing.antt =====
-- The invariant of the loop over sentences of src/depthfusion/ingest/chunking.py, through a flush
-- and through a cut.

use depthfusion.Ingest.Chunking.Letters.{letters-join, letters_all-append, letters, letters_all}
use depthfusion.Ingest.Chunking.{flush, join, Progress, Text}
use depthfusion.Common.{
  refl, sym, ◌∙◌, length-append, ap, append-nil, arith, ◌+◌, is_empty, ◌≤◌, [], length, ◌∷◌, ◌≡◌,
  ◌++◌, List, ℕ,
}

abbrev pub AllWithin : ℕ → List Text → Type 0
AllWithin n [] = Unit
AllWithin n (text ∷ texts) = (length text ≤ n) × AllWithin n texts

pub AllWithin-append :
    (n : ℕ) (xs ys : List Text) → AllWithin n xs → AllWithin n ys → AllWithin n (xs ++ ys)
AllWithin-append n [] ys h k = k
AllWithin-append n (x ∷ xs) ys h k = (h.0, AllWithin-append n xs ys h.1 k)

-- What the code counts as the length of some parts: one more for each than it has.
abbrev pub widths : List Text → ℕ
widths [] = 0
widths (part ∷ parts) = length part + 1 + widths parts

pub widths-append : (ps qs : List Text) → widths (ps ++ qs) ≡ widths ps + widths qs
widths-append [] qs = omega arith
widths-append (p ∷ ps) qs = omega (arith, widths-append ps qs)

pub length-join :
    (part : Text) (parts : List Text) → length (join (part ∷ parts)) + 1 ≡ widths (part ∷ parts)
unfolding join
length-join part [] = omega arith
length-join part (next ∷ parts) =
    omega (arith, length-append part (32 ∷ join (next ∷ parts)), length-join next parts)

-- All the letters that the loop has seen
abbrev pub letters_of : Progress → Text
letters_of state = letters_all state.chunks ++ letters_all state.current_parts

-- The invariant of the loop over the sentences, of which it has seen `seen`.
pub record IsOnTrack (max_chars : ℕ) (seen : Text) (state : Progress) : Type 0 where
  pub short : AllWithin max_chars state.chunks
  pub counted : state.current_len ≡ widths state.current_parts
  pub fits : state.current_len ≤ max_chars + 1
  pub whole : letters_of state ≡ seen

module _ (max_chars : ℕ) (seen : Text) where
  abbrev pub Flushes : Progress → Type 0
  Flushes state =
      IsOnTrack max_chars seen (flush state)
      × ((flush state).current_parts ≡ [])
      × ((flush state).current_len ≡ 0)

  flush_parts :
      (chunks parts : List Text) (n : ℕ)
      → IsOnTrack max_chars seen
          (record { chunks = chunks; current_parts = parts; current_len = n })
      → Flushes (record { chunks = chunks; current_parts = parts; current_len = n })
  unfolding flush is_empty
  flush_parts chunks [] n ok = (ok, refl, ok.counted)
  flush_parts chunks (part ∷ parts) n ok = (
    record {
      short =
          AllWithin-append max_chars chunks (join (part ∷ parts) ∷ []) ok.short
            (omega (arith, length-join part parts, ok.counted, ok.fits), tt);
      counted = refl;
      fits = omega arith;
      whole =
          append-nil (letters_all (chunks ++ join (part ∷ parts) ∷ []))
          ∙ letters_all-append chunks (join (part ∷ parts) ∷ [])
          ∙ ap (◌++◌ (letters_all chunks))
              (append-nil (letters (join (part ∷ parts))) ∙ letters-join (part ∷ parts))
          ∙ ok.whole;
    },
    refl,
    refl,
  )

  pub flush-IsOnTrack : (state : Progress) → IsOnTrack max_chars seen state → Flushes state
  flush-IsOnTrack state ok = flush_parts state.chunks state.current_parts state.current_len ok

pub cut-IsOnTrack :
    (max_chars : ℕ) (seen : Text) (state : Progress) (piece : Text)
    → IsOnTrack max_chars seen state
    → length piece ≤ max_chars
    → IsOnTrack max_chars
        (seen ++ letters piece)
        (record (flush state) { chunks = (flush state).chunks ++ piece ∷ [] })
cut-IsOnTrack max_chars seen state piece ok small =
    let (flushed, none_left, zero_len) = flush-IsOnTrack max_chars seen state ok in
    record {
      short =
          AllWithin-append max_chars (flush state).chunks (piece ∷ []) flushed.short (small, tt);
      counted = flushed.counted;
      fits = flushed.fits;
      whole =
          ap
            (λ (ps : List Text). letters_all ((flush state).chunks ++ piece ∷ []) ++ letters_all ps)
            none_left
          ∙ append-nil (letters_all ((flush state).chunks ++ piece ∷ []))
          ∙ letters_all-append (flush state).chunks (piece ∷ [])
          ∙ ap (◌++◌ (letters_all (flush state).chunks)) (append-nil (letters piece))
          ∙ ap (λ (t : Text). t ++ letters piece)
              (sym (append-nil (letters_all (flush state).chunks))
                ∙ sym (
                    ap (λ (ps : List Text). letters_all (flush state).chunks ++ letters_all ps)
                      none_left)
                ∙ flushed.whole);
    }
