-- ===== src/Tests/TokenCases.antt =====
-- A token that is accepted, with the key that it names, and the sessions of a server.
use depthfusion.Common.Dict.{put, lookup}
use depthfusion.Common.{
  refl, IsIn, ◌⊎◌, false, ◌≡◌, String_eq, contains, none, [], ◌==◌, is_empty, ◌∷◌, some,
  if◌then◌else◌,
}
use depthfusion.Identity.Jwks.{collect_keys, refresh, is_stale, get_key, Jwk, JwksCache}
use depthfusion.Identity.Tokens.{
  check_nonce, has_audience, is_expired, check_nbf, check_temporal, is_present, check_claims,
  require, check_signed, texts, at, is_text, number, kid_of, Decoding, validate, Claims,
  TokenValidator, text,
}
use depthfusion.Identity.Tokens.Accepted.{validate-IsGenuine, IsGenuine}
use depthfusion.Identity.Jwks.Keys.{get_key_sound, AreKeys}

abbrev sample_key : Jwk
sample_key = record { kid = "k1"; kty = "RSA"; n = some "n"; e = some "e" }

abbrev sample_keys : JwksCache
sample_keys = record { ttl_seconds = 3600; keys = ("k1", sample_key) ∷ []; fetched_at = 100 }

abbrev old_keys : JwksCache
old_keys = record { ttl_seconds = 3600; keys = []; fetched_at = 0 }

abbrev sample_fields : Claims
sample_fields = ("alg", text "RS256") ∷ ("kid", text "k1") ∷ []

abbrev sample_claims : Claims
sample_claims =
    ("sub", text "alice")
    ∷ ("exp", number 900)
    ∷ ("iss", text "provider")
    ∷ ("aud", texts ("other" ∷ "service" ∷ []))
    ∷ ("nonce", text "n1")
    ∷ []

abbrev sample_decoding : Decoding
sample_decoding = record {
  split = λ token. if token == "token" then "head" ∷ "body" ∷ "seal" ∷ [] else [];
  decode = λ s. if s == "head" then some sample_fields else some sample_claims;
  as_seconds = λ claim. elim claim [ number n ↦ some (at n) | _ ↦ none ];
  verifies = λ key header payload signature. signature == "seal";
}

abbrev sample_validator : TokenValidator
sample_validator = record {
  expected_issuer = "provider";
  expected_audience = "service";
  clock_skew = 300;
}

validate-IsGenuine_example :
    IsGenuine sample_decoding sample_validator 1100 sample_keys 200 none "token"
      (some "n1")
      sample_claims
unfolding validate kid_of is_text lookup get_key is_stale is_empty contains check_signed require
    check_claims is_present check_temporal check_nbf is_expired has_audience check_nonce
validate-IsGenuine_example =
    validate-IsGenuine sample_decoding sample_validator 1100 sample_keys 200 none "token"
      (some "n1") sample_claims refl

get_key_sound_example :
    AreKeys (λ jwk. Unit) (get_key old_keys 5000 (some (none ∷ some sample_key ∷ [])) "k1").0.keys
    × (sample_key.kid ≡ "k1")
    × (((is_stale old_keys 5000 ≡ false) × (lookup "k1" old_keys.keys ≡ some sample_key))
        ⊎ IsIn (some sample_key) (none ∷ some sample_key ∷ []))
unfolding get_key is_stale is_empty refresh collect_keys lookup put contains
get_key_sound_example =
    get_key_sound old_keys 5000 (none ∷ some sample_key ∷ []) "k1" sample_key (λ k v e. absurd (cc))
      refl
