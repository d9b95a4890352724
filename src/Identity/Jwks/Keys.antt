-- ===== src/Identity/Jwks/Keys.antt =====
-- Which keys `JwksCache.get_key` of src/depthfusion/identity/jwks_cache.py answers.

use depthfusion.Common.Dict.{Holds-put, put, lookup, Holds, Dict}
use depthfusion.Identity.Jwks.{
  keys, is_stale, Document, JwksCache, refresh, Jwk, get_key, collect_keys,
}
use depthfusion.Common.{
  is_empty, refl, contains, none, ◌&&◌, not, arith, [], inl, ◌⊎◌, ◌==◌, Bool-cases, false, inr, ◌∷◌,
  some, IsIn, ◌≡◌, String, ℕ, String_eq,
}

-- Each key is stored under its own id, and satisfies `P`.
abbrev pub AreKeys : (Jwk → Type 0) → Dict String Jwk → Type 0
AreKeys P keys = Holds (λ kid jwk. (jwk.kid ≡ kid) × P jwk) keys

no_keys : (P : Jwk → Type 0) → AreKeys P []
unfolding lookup
no_keys P k v at = absurd (cc)

collect_keys-AreKeys :
    (P : Jwk → Type 0) (keys : Dict String Jwk) (entries : Document)
    → ((jwk : Jwk) → IsIn (some jwk) entries → P jwk)
    → AreKeys P keys
    → AreKeys P (collect_keys keys entries)
unfolding collect_keys
collect_keys-AreKeys P keys [] from h = h
collect_keys-AreKeys P keys (none ∷ entries) from h =
    collect_keys-AreKeys P keys entries (λ jwk m. from jwk (inr m)) h
collect_keys-AreKeys P keys (some jwk ∷ entries) from h = elim (Bool-cases (jwk.kid == "")) [
  | inl nameless ↦ rw nameless (collect_keys-AreKeys P keys entries (λ jwk m. from jwk (inr m)) h)
  | inr named ↦ rw named (
      collect_keys-AreKeys P (put jwk.kid jwk keys) entries (λ jwk m. from jwk (inr m))
        (Holds-put (λ kid jwk. (jwk.kid ≡ kid) × P jwk) jwk.kid jwk keys (refl, from jwk (inl refl))
          h))
]

-- Where the cache's keys stand under their own ids and the provider answers, if asked: a key that the
-- cache answers has the id that was asked for, and it is a key of the cache, which is not stale
-- then, or of the provider's answer. Afterwards the keys stand under their own ids again.
pub get_key_sound :
    (cache : JwksCache) (now : ℕ) (entries : Document) (kid : String) (key : Jwk)
    → AreKeys (λ jwk. Unit) cache.keys
    → (get_key cache now (some entries) kid).1 ≡ some key
    → AreKeys (λ jwk. Unit) (get_key cache now (some entries) kid).0.keys
      × (key.kid ≡ kid)
      × (((is_stale cache now ≡ false) × (lookup kid cache.keys ≡ some key))
          ⊎ IsIn (some key) entries)
unfolding get_key refresh
get_key_sound cache now entries kid key ok found = elim (Bool-cases (kid == "")) [
  | inl nameless ↦ absurd (ground arith)
  | inr named ↦ elim (Bool-cases (not (is_stale cache now) && contains kid (keys cache.keys))) [
    | inl hit ↦
        let at : lookup kid cache.keys ≡ some key = ground arith in
        rw (named, hit) (ok, (ok kid key at).0, inl (ground arith, at))
    | inr miss ↦ elim (Bool-cases (is_empty (collect_keys [] entries))) [
      | inl nothing ↦ absurd (ground arith)
      | inr some_keys ↦
          let at : lookup kid (collect_keys [] entries) ≡ some key = ground arith in
          let fresh =
            collect_keys-AreKeys (λ jwk. IsIn (some jwk) entries) [] entries (λ jwk m. m)
              (no_keys (λ jwk. IsIn (some jwk) entries)) in
          let (same, listed) = fresh kid key at in
          rw (named, miss, some_keys)
            (
              collect_keys-AreKeys (λ jwk. Unit) [] entries (λ jwk m. tt) (no_keys (λ jwk. Unit)),
              same,
              inr listed,
            )
    ]
  ]
]
