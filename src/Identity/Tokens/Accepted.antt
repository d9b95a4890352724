-- ===== src/Identity/Tokens/Accepted.antt =====
-- What a token that src/depthfusion/identity/token_validator.py accepts has passed.

use depthfusion.Identity.Jwks.{get_key, Jwk, Document, JwksCache}
use depthfusion.Common.Dict.{lookup}
use depthfusion.Identity.Tokens.{
  validate, kid_of, check_signed, has_audience, is_present, text, texts, number, other,
  token_invalid, is_early, is_expired, accepts, Seconds, Claim, Validated, check_nbf, is_text,
  check_nonce, check_temporal, TokenError, Claims, check_claims, TokenValidator, require, Decoding,
}
use depthfusion.Common.{
  List, subst, [], ◌∙◌, ◌∷◌, ◌==◌, Bool-cases, ◌⊎◌, eq_iff, inr, inl, none, refl, ap, Option-cases,
  false, arith, some, true, ◌≡◌, String, Option, Bool, ℕ, String_eq,
}

require-accepts :
    (test : Bool) (error : TokenError) (rest : Validated) (claims : Claims)
    → require test error rest ≡ accepts claims
    → (test ≡ true) × (rest ≡ accepts claims)
unfolding require
require-accepts true error rest claims h = (refl, h)
require-accepts false error rest claims h = absurd (cc)

module _ (py : Decoding) (validator : TokenValidator) (now : ℕ) where
  -- The token has a time of expiry, which has not passed by more than the skew, and a time before
  -- which it is not valid is not later than the skew allows.
  abbrev pub IsTimely : Claims → Type 0
  IsTimely claims =
      ((exp : Claim) × (expiry : Seconds) × (lookup "exp" claims ≡ some exp)
        × (py.as_seconds exp ≡ some expiry)
        × (is_expired validator.clock_skew now expiry ≡ false))
      × ((lookup "nbf" claims ≡ none)
          ⊎ ((nbf : Claim) × (start : Seconds) × (lookup "nbf" claims ≡ some nbf)
              × (py.as_seconds nbf ≡ some start)
              × (is_early validator.clock_skew now start ≡ false)))

  abbrev pub HasNonce : Option String → Claims → Type 0
  HasNonce none claims = lookup "nonce" claims ≡ none
  HasNonce (some nonce) claims = lookup "nonce" claims ≡ some (text nonce)

  is_text-text :
      (expected : String) (claim : Option Claim)
      → is_text expected claim ≡ true
      → claim ≡ some (text expected)
  unfolding is_text
  is_text-text expected none h = absurd (cc)
  is_text-text expected (some (text s)) h =
      ap (λ (t : String). some (text t)) ((eq_iff s expected).0 h)
  is_text-text expected (some (texts ids)) h = absurd (cc)
  is_text-text expected (some (number n)) h = absurd (cc)
  is_text-text expected (some (other b)) h = absurd (cc)

  check_nonce-HasNonce :
      (nonce : Option String) (claims result : Claims) (rest : Validated)
      → check_nonce py validator now nonce claims rest ≡ accepts result
      → HasNonce nonce claims × (rest ≡ accepts result)
  unfolding check_nonce
  check_nonce-HasNonce none claims result rest h = elim (Option-cases (lookup "nonce" claims)) [
    | inl nothing ↦ (nothing, ground (arith, nothing))
    | inr (claim, found) ↦ absurd (ground (arith, found))
  ]
  check_nonce-HasNonce (some nonce) claims result rest h =
      let (same, next) =
        require-accepts (is_text nonce (lookup "nonce" claims)) token_invalid rest result h in
      (is_text-text nonce (lookup "nonce" claims) same, next)

  check_temporal-IsTimely :
      (claims result : Claims) (rest : Validated)
      → check_temporal py validator now claims rest ≡ accepts result
      → IsTimely claims × (rest ≡ accepts result)
  unfolding check_temporal check_nbf require
  check_temporal-IsTimely claims result rest h = elim (Option-cases (lookup "exp" claims)) [
    | inl nothing ↦ absurd (ground (arith, nothing))
    | inr (exp, found) ↦ elim (Option-cases (py.as_seconds exp)) [
      | inl wrong ↦ absurd (ground (arith, found, wrong))
      | inr (expiry, made) ↦ elim (Bool-cases (is_expired validator.clock_skew now expiry)) [
        | inl expired ↦ absurd (ground (arith, found, made, expired))
        | inr valid ↦ elim (Option-cases (lookup "nbf" claims)) [
          | inl nothing ↦ (
            ((exp, expiry, found, made, valid), inl nothing),
            ground (arith, found, made, valid, nothing),
          )
          | inr (nbf, there) ↦ elim (Option-cases (py.as_seconds nbf)) [
            | inl wrong ↦ absurd (ground (arith, found, made, valid, there, wrong))
            | inr (start, got) ↦ elim (Bool-cases (is_early validator.clock_skew now start)) [
              | inl early ↦ absurd (ground (arith, found, made, valid, there, got, early))
              | inr begun ↦ (
                ((exp, expiry, found, made, valid), inr (nbf, start, there, got, begun)),
                ground (arith, found, made, valid, there, got, begun),
              )
            ]
          ]
        ]
      ]
    ]
  ]

  -- What the claims of an accepted token are.
  pub record AreAccepted (nonce : Option String) (claims : Claims) : Type 0 where
    pub subject : is_present (lookup "sub" claims) ≡ true
    pub timely : IsTimely claims
    pub issuer : lookup "iss" claims ≡ some (text validator.expected_issuer)
    pub audience : has_audience validator.expected_audience (lookup "aud" claims) ≡ true
    pub unreplayed : HasNonce nonce claims

  check_claims-AreAccepted :
      (nonce : Option String) (claims result : Claims)
      → check_claims py validator now nonce claims ≡ accepts result
      → AreAccepted nonce claims × (claims ≡ result)
  unfolding check_claims
  check_claims-AreAccepted nonce claims result h =
      let (subject, h1) = require-accepts _ _ _ result h in
      let (timely, h2) = check_temporal-IsTimely claims result _ h1 in
      let (issuer, h3) = require-accepts _ _ _ result h2 in
      let (audience, h4) = require-accepts _ _ _ result h3 in
      let (fresh, h5) = check_nonce-HasNonce nonce claims result _ h4 in
      (
        record {
          subject = subject;
          timely = timely;
          issuer = is_text-text validator.expected_issuer (lookup "iss" claims) issuer;
          audience = audience;
          unreplayed = fresh;
        },
        ground (arith, h5),
      )

  -- What stands behind an accepted token: its three parts, its key, and the claims that it signs.
  pub record IsGenuine (cache : JwksCache) (mono : ℕ) (answer : Option Document) (token : String)
      (nonce : Option String) (claims : Claims) : Type 0 where
    pub header : String
    pub payload : String
    pub signature : String
    pub fields : Claims
    pub kid : String
    pub key : Jwk
    pub parts : py.split token ≡ header ∷ payload ∷ signature ∷ []
    pub decoded : py.decode header ≡ some fields
    pub algorithm : lookup "alg" fields ≡ some (text "RS256")
    pub named : lookup "kid" fields ≡ some (text kid)
    pub provided : (get_key cache mono answer kid).1 ≡ some key
    pub rsa : key.kty ≡ "RSA"
    pub signed : py.verifies key header payload signature ≡ true
    pub signs : py.decode payload ≡ some claims
    pub checked : AreAccepted nonce claims

  kid_of-text :
      (fields : Claims) (kid : String)
      → kid_of py validator now fields ≡ some kid
      → lookup "kid" fields ≡ some (text kid)
  unfolding kid_of
  kid_of-text fields kid h = go (lookup "kid" fields) refl
    where
      go :
          (found : Option Claim)
          → lookup "kid" fields ≡ found
          → lookup "kid" fields ≡ some (text kid)
      go none there = absurd (ground (arith, there))
      go (some (text s)) there = elim (Bool-cases (s == "")) [
        | inl blank ↦ absurd (ground (arith, there, blank))
        | inr solid ↦ ground (arith, there, solid)
      ]
      go (some (texts ids)) there = absurd (ground (arith, there))
      go (some (number n)) there = absurd (ground (arith, there))
      go (some (other b)) there = absurd (ground (arith, there))

  check_signed_cases :
      (key : Jwk) (header payload signature : String) (nonce : Option String) (claims : Claims)
      → check_signed py validator now key header payload signature nonce ≡ accepts claims
      → (key.kty ≡ "RSA")
        × (py.verifies key header payload signature ≡ true)
        × (py.decode payload ≡ some claims)
        × AreAccepted nonce claims
  unfolding check_signed
  check_signed_cases key header payload signature nonce claims h =
      let (rsa, h1) = require-accepts _ _ _ claims h in
      let (signed, h2) = require-accepts _ _ _ claims h1 in
      elim (Option-cases (py.decode payload)) [
        | inl wrong ↦ absurd (ground (arith, h2, wrong))
        | inr (read, got) ↦
            let (ok, same) = check_claims-AreAccepted nonce read claims (ground (arith, h2, got)) in
            (
              (eq_iff key.kty "RSA").0 rsa,
              signed,
              got ∙ ap some same,
              subst (AreAccepted nonce) same ok,
            )
      ]

  -- A token that `validate` accepts is genuine: it has three parts, its header names RS256 and a key,
  -- that key comes from the cache or its refresh, by the monotonic clock, and is an RSA key, the
  -- signature of the first two parts verifies under it, and the claims answered are those of the second part. They name a
  -- subject, have an expiry that by the wall clock has not passed by more than the skew, or is no number, and
  -- likewise no later start, come from the expected issuer for the expected audience, and have the
  -- nonce that was expected, or none where none was.
  pub validate-IsGenuine :
      (cache : JwksCache) (mono : ℕ) (answer : Option Document) (token : String)
      (nonce : Option String) (claims : Claims)
      → (validate py validator now cache mono answer token nonce).1 ≡ accepts claims
      → IsGenuine cache mono answer token nonce claims
  unfolding validate
  validate-IsGenuine cache mono answer token nonce claims h = parts_of (py.split token) refl
    where
      parts_of :
          (parts : List String)
          → py.split token ≡ parts
          → IsGenuine cache mono answer token nonce claims
      parts_of [] eq = absurd (ground (arith, h, eq))
      parts_of (a ∷ []) eq = absurd (ground (arith, h, eq))
      parts_of (a ∷ b ∷ []) eq = absurd (ground (arith, h, eq))
      parts_of (a ∷ b ∷ c ∷ d ∷ more) eq = absurd (ground (arith, h, eq))
      parts_of (header ∷ payload ∷ signature ∷ []) eq = elim (Option-cases (py.decode header)) [
        | inl wrong ↦ absurd (ground (arith, h, eq, wrong))
        | inr (fields, read) ↦ elim (Bool-cases (is_text "RS256" (lookup "alg" fields))) [
          | inr alg ↦ absurd (ground (arith, h, eq, read, alg))
          | inl alg ↦ elim (Option-cases (kid_of py validator now fields)) [
            | inl nameless ↦ absurd (ground (arith, h, eq, read, alg, nameless))
            | inr (kid, named) ↦ elim (Option-cases (get_key cache mono answer kid).1) [
              | inl nowhere ↦ absurd (ground (arith, h, eq, read, alg, named, nowhere))
              | inr (key, got) ↦
                  let (rsa, signed, signs, ok) =
                    check_signed_cases key header payload signature nonce claims
                      (ground (arith, h, eq, read, alg, named, got)) in
                  record {
                    header = header;
                    payload = payload;
                    signature = signature;
                    fields = fields;
                    kid = kid;
                    key = key;
                    parts = eq;
                    decoded = read;
                    algorithm = is_text-text "RS256" (lookup "alg" fields) alg;
                    named = kid_of-text fields kid named;
                    provided = got;
                    rsa = rsa;
                    signed = signed;
                    signs = signs;
                    checked = ok;
                  }
            ]
          ]
        ]
      ]
