-- ===== src/Ingest/Chunking/Windows.antt =====
-- `FixedSizeChunker.chunk` of src/depthfusion/ingest/chunking.py: it ends, no chunk is too long,
-- and without overlap no letter is lost or repeated.

use depthfusion.Ingest.Chunking.Progressing.{AllWithin}
use depthfusion.Ingest.Chunking.Letters.{
  letters-take-drop, letters-strip, length-strip-le, letters, letters_all,
}
use depthfusion.Ingest.Chunking.{
  chunk_windows, new_fixed_size, strip, chunks_from, Text, FixedSizeChunker,
}
use depthfusion.Common.{
  is_empty, ℕ_eq, append-nil, ◌==◌, drop-drop, subst, length-Nil, sym, length-drop, ◌⊎◌, ap, ◌∙◌,
  take-all, zero, leb, inl, inr, ltb, length-take, refl, Bool-cases, suc, ◌++◌, ◌∷◌, some, drop,
  arith, [], ◌-◌, ◌+◌, if◌then◌else◌, ◌≡◌, min, ◌≤◌, ◌<◌, take, length, List, select, ℕ, ◌*◌,
}

abbrev window : FixedSizeChunker → Text → ℕ → Text
window sizes text start =
    strip (take (min (start + sizes.chunk_chars) (length text) - start) (drop start text))

length-window-le :
    (sizes : FixedSizeChunker) (text : Text) (start : ℕ)
    → length (window sizes text start) ≤ sizes.chunk_chars
length-window-le sizes text start =
    let n = min (start + sizes.chunk_chars) (length text) - start in
    omega (arith, length-strip-le (take n (drop start text)), length-take n (drop start text))

kept-AllWithin :
    (n : ℕ) (chunk : Text) (later : List Text)
    → length chunk ≤ n
    → AllWithin n later
    → AllWithin n ((if is_empty chunk then [] else chunk ∷ []) ++ later)
unfolding is_empty
kept-AllWithin n [] later short rest = rest
kept-AllWithin n (c ∷ chunk) later short rest = (short, rest)

letters-kept :
    (chunk : Text) (later : List Text)
    → letters_all ((if is_empty chunk then [] else chunk ∷ []) ++ later)
      ≡ letters chunk ++ letters_all later
unfolding is_empty select
letters-kept [] later = refl
letters-kept (c ∷ chunk) later = refl

-- What the loop adds from a place on.
record IsWindowed (sizes : FixedSizeChunker) (text : Text) (start : ℕ) (chunks : List Text)
    : Type 0 where
  short : AllWithin sizes.chunk_chars chunks
  whole : sizes.overlap_chars ≡ 0 → letters_all chunks ≡ letters (drop start text)

module _ (sizes : FixedSizeChunker) (text : Text) where
  abbrev cut_at : ℕ → Text
  cut_at start = take (min (start + sizes.chunk_chars) (length text) - start) (drop start text)

  abbrev kept_at : ℕ → List Text
  kept_at start = if is_empty (window sizes text start) then [] else window sizes text start ∷ []

  kept-IsWindowed :
      (start : ℕ) (later : List Text)
      → AllWithin sizes.chunk_chars later
      → (sizes.overlap_chars ≡ 0
          → letters (cut_at start) ++ letters_all later ≡ letters (drop start text))
      → IsWindowed sizes text start (kept_at start ++ later)
  kept-IsWindowed start later short same = record {
    short =
        kept-AllWithin sizes.chunk_chars (window sizes text start) later
          (length-window-le sizes text start) short;
    whole = λ apart.
        letters-kept (window sizes text start) later
        ∙ ap (λ (t : Text). t ++ letters_all later) (letters-strip (cut_at start))
        ∙ same apart;
  }

  last-IsWindowed :
      (start : ℕ)
      → length text ≤ start + sizes.chunk_chars
      → IsWindowed sizes text start (kept_at start)
  last-IsWindowed start last =
      let n = min (start + sizes.chunk_chars) (length text) - start in
      let all = take-all n (drop start text) (omega (arith, length-drop start text)) in
      subst (IsWindowed sizes text start) (append-nil (kept_at start))
        (kept-IsWindowed start [] tt λ apart. append-nil (letters (cut_at start)) ∙ ap letters all)

  more-IsWindowed :
      (start : ℕ) (later : List Text)
      → start + sizes.chunk_chars < length text
      → sizes.step_chars + sizes.overlap_chars ≡ sizes.chunk_chars
      → IsWindowed sizes text (start + sizes.step_chars) later
      → IsWindowed sizes text start (kept_at start ++ later)
  more-IsWindowed start later more steps rest = kept-IsWindowed start later rest.short λ apart.
      let n = min (start + sizes.chunk_chars) (length text) - start in
      let same : n ≡ sizes.step_chars = omega (arith, more, steps, apart) in
      ap (◌++◌ (letters (cut_at start))) (
        rest.whole apart
        ∙ ap letters (sym (drop-drop start sizes.step_chars text))
        ∙ ap (λ (k : ℕ). letters (drop k (drop start text))) (sym same))
      ∙ letters-take-drop n (drop start text)

  chunks_from-IsWindowed :
      (fuel start : ℕ)
      → 0 < sizes.step_chars
      → sizes.step_chars + sizes.overlap_chars ≡ sizes.chunk_chars
      → length text - start < fuel
      → (chunks : List Text) × (chunks_from sizes text fuel start ≡ some chunks)
        × IsWindowed sizes text start chunks
  unfolding chunks_from select
  chunks_from-IsWindowed zero start positive steps enough = absurd (omega arith)
  chunks_from-IsWindowed (suc fuel) start positive steps enough =
      elim (Bool-cases (ltb start (length text))) [
        | inr done ↦ (
          [],
          ground arith,
          record {
            short = tt;
            whole = λ apart.
                ap letters
                  (sym (length-Nil (drop start text) (ground (arith, length-drop start text))));
          },
        )
        | inl within ↦
            elim (Bool-cases (leb (length text) (min (start + sizes.chunk_chars) (length text)))) [
              | inl last ↦ (kept_at start, ground arith, last-IsWindowed start (ground arith))
              | inr more ↦
                  let (later, ran, rest) =
                    chunks_from-IsWindowed fuel (start + sizes.step_chars) positive steps
                      (ground arith) in
                  (
                    kept_at start ++ later,
                    ground (arith, ran),
                    more-IsWindowed start later (ground arith) steps rest,
                  )
            ]
      ]

new_fixed_size_lem :
    (chunk_tokens overlap_tokens : ℕ) (sizes : FixedSizeChunker)
    → new_fixed_size chunk_tokens overlap_tokens ≡ some sizes
    → (0 < sizes.step_chars)
      × (sizes.step_chars + sizes.overlap_chars ≡ sizes.chunk_chars)
      × (sizes.chunk_chars ≡ chunk_tokens * 4)
      × (sizes.overlap_chars ≡ overlap_tokens * 4)
unfolding new_fixed_size
new_fixed_size_lem chunk_tokens overlap_tokens sizes made = ground (arith, made)

-- A chunker that its constructor accepts ends on every text, and none of its chunks is longer than
-- four characters for each of its tokens. Where it has no overlap, its chunks have the letters of
-- the text, all of them and in their order.
pub chunk_windows_lem :
    (chunk_tokens overlap_tokens : ℕ) (sizes : FixedSizeChunker) (text : Text)
    → new_fixed_size chunk_tokens overlap_tokens ≡ some sizes
    → (chunks : List Text) × (chunk_windows sizes text ≡ some chunks)
      × AllWithin (chunk_tokens * 4) chunks
      × ((¬ (overlap_tokens ≡ 0)) ⊎ (letters_all chunks ≡ letters text))
unfolding chunk_windows drop
chunk_windows_lem chunk_tokens overlap_tokens sizes text made =
    let (positive, steps, chars, overlap) =
      new_fixed_size_lem chunk_tokens overlap_tokens sizes made in
    let (chunks, ran, is) =
      chunks_from-IsWindowed sizes text (suc (length text)) 0 positive steps (omega arith) in
    (
      chunks,
      ran,
      subst (λ (n : ℕ). AllWithin n chunks) chars is.short,
      elim (Bool-cases (overlap_tokens == 0)) [
        | inl apart ↦ inr (is.whole (ground (arith, overlap)))
        | inr over ↦ inl (λ zero_overlap. ground arith)
      ],
    )
