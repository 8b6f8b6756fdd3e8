-- ===== src/Jwt.antt =====
-- crates/cherenkov-auth/src/jwt.rs: the authenticator for signed tokens.
use cherenkov.Prelude.{
  ℕ, String, false, Option, none, some, Result, ok, err, List, [], ◌∷◌, ◌++◌, if◌then◌else◌,
  is_empty,
}
use cherenkov.Protocol.{Bytes}
use cherenkov.Core.Types.{AuthError, SessionClaims}
use cherenkov.Core.Traits.{Authenticator}

pub data JwtAlgorithm : Type 0 where
  hs256 hs384 hs512 : JwtAlgorithm

-- `jsonwebtoken::Algorithm`, as far as it is used
pub data Algorithm : Type 0 where
  hmac_sha256 hmac_sha384 hmac_sha512 : Algorithm

-- `From<JwtAlgorithm> for Algorithm`
unfoldable pub to_algorithm : JwtAlgorithm → Algorithm
to_algorithm hs256 = Algorithm.hmac_sha256
to_algorithm hs384 = Algorithm.hmac_sha384
to_algorithm hs512 = Algorithm.hmac_sha512

-- The fields of a token's body that are read, as they are written or missing
pub record TokenBody : Type 0 where
  pub sub : String
  pub permissions : Option (List String)
  pub exp : Option ℕ

-- The crate `jsonwebtoken`, a parameter; the `String` of an error is what its `Display` writes.
pub record Jsonwebtoken : Type 1 where
  pub DecodingKey : Type 0
  pub Validation : Type 0
  pub from_secret : Bytes → DecodingKey
  pub new_validation : Algorithm → Validation
  pub set_audience : List String → Validation → Validation
  -- `validate_aud = false`
  pub skip_audience : Validation → Validation
  pub set_issuer : List String → Validation → Validation
  pub decode : String → DecodingKey → Validation → Result String TokenBody

pub record CherenkovClaims : Type 0 where
  pub sub : String
  pub permissions : List String
  pub exp : ℕ

abbrev pub or_default : {A : Type 0} → Option A → A → A
or_default none a = a
or_default (some b) a = b

-- `#[serde(default)]` of the fields
unfoldable pub with_defaults : TokenBody → CherenkovClaims
with_defaults body = record {
  sub = body.sub;
  permissions = or_default body.permissions [];
  exp = or_default body.exp 0;
}

pub record JwtAuthBuilder : Type 0 where
  pub secret : Option Bytes
  pub algorithm : JwtAlgorithm
  pub audiences : List String
  pub issuer : Option String

-- `JwtAuthenticator::builder`
abbrev pub new_builder : JwtAuthBuilder
new_builder = record { secret = none; algorithm = hs256; audiences = []; issuer = none }

unfoldable pub with_hmac_secret : Bytes → JwtAuthBuilder → JwtAuthBuilder
with_hmac_secret secret b = record b { secret = some secret }

unfoldable pub with_algorithm : JwtAlgorithm → JwtAuthBuilder → JwtAuthBuilder
with_algorithm algorithm b = record b { algorithm = algorithm }

unfoldable pub with_audience : String → JwtAuthBuilder → JwtAuthBuilder
with_audience audience b = record b { audiences = b.audiences ++ audience ∷ [] }

unfoldable pub with_issuer : String → JwtAuthBuilder → JwtAuthBuilder
with_issuer issuer b = record b { issuer = some issuer }

module _ (J : Jsonwebtoken) where
  pub record JwtAuthenticator : Type 0 where
    pub key : J.DecodingKey
    pub validation : J.Validation

  unfoldable pub check_issuer : Option String → J.Validation → J.Validation
  check_issuer none validation = validation
  check_issuer (some issuer) validation = J.set_issuer (issuer ∷ []) validation

  unfoldable pub check_audience : List String → J.Validation → J.Validation
  check_audience audiences validation =
      if is_empty audiences then J.skip_audience validation else J.set_audience audiences validation

  -- `none` is the panic of `expect`.
  unfoldable pub build : JwtAuthBuilder → Option JwtAuthenticator
  unfolding to_algorithm check_audience check_issuer
  build b = elim b.secret [
    | none ↦ none
    | some secret ↦ some (record {
      key = J.from_secret secret;
      validation =
          check_issuer b.issuer
            (check_audience b.audiences (J.new_validation (to_algorithm b.algorithm)));
    })
  ]

  unfoldable pub authenticate : JwtAuthenticator → String → Result AuthError SessionClaims
  unfolding with_defaults
  authenticate a token = elim (J.decode token a.key a.validation) [
    | err e ↦ err (AuthError.invalid_token e)
    | ok body ↦
        let claims = with_defaults body in
        ok (record {
          subject = claims.sub;
          permissions = claims.permissions;
          expires_at = claims.exp;
        })
  ]

  -- `impl Authenticator for JwtAuthenticator`
  abbrev pub jwt_authenticator : JwtAuthenticator → Authenticator
  jwt_authenticator a = record { allow_anonymous = false; authenticate = authenticate a }
