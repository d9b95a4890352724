-- ===== src/Events/Checkpoints/Files.antt =====
-- The loop of `prune_expired_checkpoints` of src/depthfusion/core/event_store.py over the files of a
-- directory, and the names of those files.
use depthfusion.Events.Records.{FileContent}
use depthfusion.Common.Texts.{codes, Chars}
use depthfusion.Common.Dict.{lookup-del, del, keys, Distinct, lookup}
use depthfusion.Events.Paths.{matches_glob, skip_any}
use depthfusion.Events.Checkpoints.{
  is_expired, Directory, file_name, prune_files, PruneHost, is_json_name,
}
use depthfusion.Common.{
  inr, subst, ◌+◌, ap, refl, list_beq_iff, [], inl, Bool-cases, arith, some, ◌∷◌, none, false,
  if◌then◌else◌, ◌&&◌, ◌==◌, ◌++◌, List, true, is_empty, ◌≡◌, select, any, contains, Bool, ℕ,
  String_eq, ℕ_eq, List_eq,
}

module _ {ℓ} {A : Type ℓ} (p q : A → Bool) where
  pub any-select : (xs : List A) → any p (select q xs) ≡ any (λ x. q x && p x) xs
  unfolding any select
  any-select [] = refl
  any-select (x ∷ xs) = ground (arith, any-select xs)

-- The file is expired and can be deleted.
unfoldable pub goes : PruneHost → ℕ → ℕ → Chars × FileContent → Bool
goes host ttl now file = is_expired host ttl now file.1 && host.can_unlink file.0

pub lookup-prune_files :
    (host : PruneHost) (ttl now : ℕ) (directory : Directory) (deleted : ℕ)
    (files : List (Chars × FileContent)) (name : Chars)
    → lookup name (prune_files host ttl now directory deleted files).0 ≡ (
        if any (λ f. f.0 == name && goes host ttl now f) files then none else lookup name directory)
unfolding prune_files any goes
lookup-prune_files host ttl now directory deleted [] name = refl
lookup-prune_files host ttl now directory deleted ((n, content) ∷ files) name =
    elim (Bool-cases (is_expired host ttl now content && host.can_unlink n)) [
      | inl gone ↦ ground (
        arith,
        gone,
        lookup-prune_files host ttl now (del n directory) (deleted + 1) files name,
        lookup-del n name directory,
      )
      | inr kept ↦
          ground (arith, kept, lookup-prune_files host ttl now directory deleted files name)
    ]

none_named :
    (p : Chars × FileContent → Bool) (directory : Directory) (name : Chars)
    → contains name (keys directory) ≡ false
    → any (λ f. f.0 == name && p f) directory ≡ false
unfolding contains any
none_named p [] name h = refl
none_named p ((n, content) ∷ directory) name h = ground (arith, none_named p directory name)

-- In a directory, a name has one file.
pub any_named :
    (p : Chars × FileContent → Bool) (directory : Directory) (name : Chars)
    → Distinct (keys directory)
    → any (λ f. f.0 == name && p f) directory
      ≡ elim (lookup name directory) [ none ↦ false | some content ↦ p (name, content) ]
unfolding lookup any
any_named p [] name h = refl
any_named p ((n, content) ∷ directory) name h = elim (Bool-cases (n == name)) [
  | inl same ↦
      let eq = (list_beq_iff n name).0 same in
      ground (
        arith,
        ap (λ (m : Chars). p (m, content)) eq,
        none_named p directory name (subst (λ m. contains m (keys directory) ≡ false) eq h.0),
      )
  | inr other ↦ ground (arith, any_named p directory name h.1)
]

-- Every checkpoint's file has a name that the listing looks at.
skip_any-json : (id : Chars) → skip_any (matches_glob (codes ".json")) (id ++ codes ".json") ≡ true
unfolding skip_any matches_glob is_empty
skip_any-json [] = refl
skip_any-json (c ∷ id) = ground (arith, skip_any-json id)

pub file_name-is_json_name : (id : Chars) → is_json_name (file_name id) ≡ true
unfolding is_json_name file_name matches_glob
file_name-is_json_name id = skip_any-json id
