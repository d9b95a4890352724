-- ===== src/Identity/Tokens.antt =====
-- `TokenValidator` of src/depthfusion/identity/token_validator.py, which accepts a signed token of a
-- provider and answers its claims. Times are numbers of one unit, and `nan` is the float that
-- compares with nothing.

use depthfusion.Common.Dict.{Dict, lookup}
use depthfusion.Identity.Jwks.{get_key, Document, JwksCache, Jwk}
use depthfusion.Common.{
  [], ◌∷◌, ℕ_eq, ◌+◌, is_empty, if◌then◌else◌, contains, not, ltb, true, none, List, ◌==◌, some,
  false, String, Bool, Option, ℕ, String_eq,
}
pub mod Accepted

-- A claim, whose `none` is JSON's null or an absent one; lists are of strings, and a `kid` that is
-- there is a string.
pub data Claim : Type 0 where
  text : String → Claim
  texts : List String → Claim
  number : ℕ → Claim
  other : Bool → Claim

abbrev pub Claims : Type 0
Claims = Dict String Claim

pub data Seconds : Type 0 where
  at : ℕ → Seconds
  nan : Seconds

pub data TokenError : Type 0 where
  token_invalid token_expired jwks_fetch : TokenError

pub data Validated : Type 0 where
  accepts : Claims → Validated
  fails : TokenError → Validated

-- The libraries' work: `str.split(".")`, the base64url and JSON decoding of a segment (`none` where
-- it fails or gives no object), `float` of a claim, and the check of a signature by a key's numbers.
pub record Decoding : Type 0 where
  pub split : String → List String
  pub decode : String → Option Claims
  pub as_seconds : Claim → Option Seconds
  pub verifies : Jwk → String → String → String → Bool

pub record TokenValidator : Type 0 where
  pub expected_issuer : String
  pub expected_audience : String
  pub clock_skew : ℕ

-- Python's truth of `claims.get(key)`; `other` says whether the value is true.
unfoldable pub is_present : Option Claim → Bool
is_present none = false
is_present (some (text s)) = not (s == "")
is_present (some (texts ids)) = not (is_empty ids)
is_present (some (number n)) = not (n == 0)
is_present (some (other b)) = b

unfoldable pub is_text : String → Option Claim → Bool
is_text expected (some (text s)) = s == expected
is_text expected claim = false

-- `_check_audience`
unfoldable pub has_audience : String → Option Claim → Bool
has_audience expected (some (texts ids)) = contains expected ids
has_audience expected claim = is_text expected claim

-- `(exp_val + self._clock_skew) < now`
unfoldable pub is_expired : ℕ → ℕ → Seconds → Bool
is_expired skew now nan = false
is_expired skew now (at exp) = ltb (exp + skew) now

-- `(nbf_val - self._clock_skew) > now`
unfoldable pub is_early : ℕ → ℕ → Seconds → Bool
is_early skew now nan = false
is_early skew now (at nbf) = ltb (now + skew) nbf

-- `if not test: raise error`
unfoldable pub require : Bool → TokenError → Validated → Validated
require true error rest = rest
require false error rest = fails error

module _ (py : Decoding) (validator : TokenValidator) (now : ℕ) where
  unfoldable pub check_nbf : Claims → Validated → Validated
  check_nbf claims rest = elim (lookup "nbf" claims) [
    | none ↦ rest
    | some claim ↦ elim (py.as_seconds claim) [
      | none ↦ fails token_invalid
      | some nbf ↦ require (not (is_early validator.clock_skew now nbf)) token_invalid rest
    ]
  ]

  unfoldable pub check_temporal : Claims → Validated → Validated
  check_temporal claims rest = elim (lookup "exp" claims) [
    | none ↦ fails token_invalid
    | some claim ↦ elim (py.as_seconds claim) [
      | none ↦ fails token_invalid
      | some exp ↦
          require (not (is_expired validator.clock_skew now exp)) token_expired
            (check_nbf claims rest)
    ]
  ]

  unfoldable pub check_nonce : Option String → Claims → Validated → Validated
  check_nonce none claims rest = elim (lookup "nonce" claims) [
    | none ↦ rest
    | some claim ↦ fails token_invalid
  ]
  check_nonce (some nonce) claims rest =
      require (is_text nonce (lookup "nonce" claims)) token_invalid rest

  unfoldable pub check_claims : Option String → Claims → Validated
  check_claims nonce claims = require (is_present (lookup "sub" claims)) token_invalid (
      check_temporal claims (
        require (is_text validator.expected_issuer (lookup "iss" claims)) token_invalid (
          require (has_audience validator.expected_audience (lookup "aud" claims)) token_invalid
            (check_nonce nonce claims (accepts claims)))))

  -- The signature and then the claims, once the key is there; `_jwk_to_public_key` wants RSA.
  unfoldable pub check_signed : Jwk → String → String → String → Option String → Validated
  check_signed key header payload signature nonce = require (key.kty == "RSA") token_invalid (
      require (py.verifies key header payload signature) token_invalid (elim (py.decode payload) [
        | none ↦ fails token_invalid
        | some claims ↦ check_claims nonce claims
      ]))

  unfoldable pub kid_of : Claims → Option String
  kid_of header = elim (lookup "kid" header) [
    | some (text kid) ↦ if kid == "" then none else some kid
    | _ ↦ none
  ]

  -- `validate`, with the answer of the provider to a fetch of its keys. `now` is `time.time`, against
  -- which the token is checked, and `mono` is `time.monotonic`, which tells the age of the keys.
  unfoldable pub validate :
      JwksCache → ℕ → Option Document → String → Option String → JwksCache × Validated
  validate cache mono answer token nonce = elim (py.split token) [
    | header ∷ payload ∷ signature ∷ [] ↦ elim (py.decode header) [
      | none ↦ (cache, fails token_invalid)
      | some fields ↦
          if not (is_text "RS256" (lookup "alg" fields))
          then (cache, fails token_invalid)
          else elim (kid_of fields) [
            | none ↦ (cache, fails token_invalid)
            | some kid ↦ elim (get_key cache mono answer kid).1 [
              | none ↦ ((get_key cache mono answer kid).0, fails jwks_fetch)
              | some key ↦ (
                (get_key cache mono answer kid).0,
                check_signed key header payload signature nonce,
              )
            ]
          ]
    ]
    | _ ↦ (cache, fails token_invalid)
  ]
