-- ===== src/Server/Build/Tokens.antt =====
-- What the `auth` section of crates/cherenkov-server/src/config.rs says, and that the authenticator
-- which app.rs builds from it identifies a client accordingly.
use cherenkov.Prelude.{
  String, ◌≡◌, refl, ap, sym, ◌∙◌, Bool, true, false, not, Option, none, some, Result, ok, err,
  ok_inj, List, [], ◌∷◌, ◌++◌, ◌==◌, string_eq, if◌then◌else◌, arith, is_empty, Bool-cases,
  Result-cases, inl, inr,
}
use mathlib.Core.List.{append_assoc, append-nil}
use cherenkov.Prelude.Utf8.{as_bytes}
use cherenkov.Core.Types.{SessionClaims, AuthError, anonymous}
use cherenkov.Core.Traits.{Authenticator, allow_all_authenticator}
use cherenkov.Jwt
use cherenkov.Jwt.{
  or_default, Algorithm, TokenBody, JwtAuthenticator, JwtAuthBuilder, jwt_authenticator, hs256,
}
use cherenkov.Server.Config.{AuthConfig}
use cherenkov.Server.Parts.{Outside, build_authenticator, with_audiences, with_issuer_of}

-- What a token says of its bearer; a missing list of permissions is empty, a missing expiry is 0.
abbrev pub claims_of : TokenBody → SessionClaims
claims_of body = record {
  subject = body.sub;
  permissions = or_default body.permissions [];
  expires_at = or_default body.exp 0;
}

module _ (O : Outside) where
  -- What a token has to satisfy: HS256, one of the audiences if any are given, the issuer if given
  abbrev pub for_audiences : List String → O.tokens.Validation
  for_audiences audiences =
      let plain = O.tokens.new_validation Algorithm.hmac_sha256 in
      if is_empty audiences
      then O.tokens.skip_audience plain
      else O.tokens.set_audience audiences plain

  abbrev pub required : List String → Option String → O.tokens.Validation
  required audiences none = for_audiences audiences
  required audiences (some issuer) = O.tokens.set_issuer (issuer ∷ []) (for_audiences audiences)

  -- Without an `auth` section every token is taken, and names nobody.
  abbrev pub identified : Option AuthConfig → String → Result AuthError SessionClaims
  identified none token = ok anonymous
  identified (some c) token =
      elim (O.tokens.decode token (O.tokens.from_secret (as_bytes c.hmac_secret))
        (required c.audiences c.issuer)) [
          | err e ↦ err (AuthError.invalid_token e)
          | ok body ↦ ok (claims_of body)
        ]

  abbrev pub needs_token : Option AuthConfig → Bool
  needs_token none = false
  needs_token (some c) = true

  with_audiences_lem :
      (audiences : List String) (b : JwtAuthBuilder)
      → with_audiences O audiences b ≡ record b { audiences = b.audiences ++ audiences }
  unfolding Jwt.with_audience
  with_audiences_lem [] b = ap (λ l. record b { audiences = l }) (sym (append-nil b.audiences))
  with_audiences_lem (a ∷ audiences) b =
      with_audiences_lem audiences (Jwt.with_audience a b)
      ∙ ap (λ l. record b { audiences = l }) (append_assoc b.audiences (a ∷ []) audiences)

  abbrev settled : String → List String → Option String → JwtAuthBuilder
  settled secret audiences issuer = record {
    secret = some (as_bytes secret);
    algorithm = hs256;
    audiences = audiences;
    issuer = issuer;
  }

  token_builder_lem :
      (secret : String) (audiences : List String) (issuer : Option String)
      → with_issuer_of O issuer
          (with_audiences O audiences (Jwt.with_hmac_secret (as_bytes secret) Jwt.new_builder))
        ≡ settled secret audiences issuer
  unfolding Jwt.with_hmac_secret Jwt.with_issuer
  token_builder_lem secret audiences none = with_audiences_lem audiences _
  token_builder_lem secret audiences (some issuer) =
      ap (Jwt.with_issuer issuer) (with_audiences_lem audiences _)

  abbrev authenticator_of : String → List String → Option String → JwtAuthenticator O.tokens
  authenticator_of secret audiences issuer = record {
    key = O.tokens.from_secret (as_bytes secret);
    validation = required audiences issuer;
  }

  build-settled :
      (secret : String) (audiences : List String) (issuer : Option String)
      → Jwt.build O.tokens (settled secret audiences issuer)
        ≡ some (authenticator_of secret audiences issuer)
  unfolding Jwt.build Jwt.check_audience Jwt.check_issuer Jwt.to_algorithm
  build-settled secret audiences none = refl
  build-settled secret audiences (some issuer) = refl

  build_authenticator-none :
      (a : Authenticator) → build_authenticator O none ≡ ok a → a ≡ allow_all_authenticator
  unfolding build_authenticator
  build_authenticator-none a h = sym (ok_inj allow_all_authenticator a h)

  build_authenticator-ok :
      (c : AuthConfig) (a : Authenticator)
      → build_authenticator O (some c) ≡ ok a
      → a ≡ jwt_authenticator O.tokens (authenticator_of c.hmac_secret c.audiences c.issuer)
  unfolding build_authenticator
  build_authenticator-ok c a h = elim (Bool-cases (c.hmac_secret == "")) [
    | inl e ↦ absurd (ground (arith, rw (e, build_authenticator) at h))
    | inr e ↦ sym (
        ok_inj (jwt_authenticator O.tokens (authenticator_of c.hmac_secret c.audiences c.issuer)) a
          (rw
            (
              e,
              token_builder_lem c.hmac_secret c.audiences c.issuer,
              build-settled c.hmac_secret c.audiences c.issuer,
              build_authenticator,
            )
            at h))
  ]

  jwt-identified :
      (c : AuthConfig) (token : String)
      → Jwt.authenticate O.tokens (authenticator_of c.hmac_secret c.audiences c.issuer) token
        ≡ identified (some c) token
  unfolding Jwt.authenticate Jwt.with_defaults
  jwt-identified c token =
      elim (Result-cases (
        O.tokens.decode token (O.tokens.from_secret (as_bytes c.hmac_secret))
          (required c.audiences c.issuer))) [
            | inr (e, k) ↦ rw (k, Jwt.authenticate) (rw (k, identified) refl)
            | inl (body, k) ↦ rw (k, Jwt.authenticate) (rw (k, identified) refl)
          ]

  pub build_authenticator-identified :
      (auth : Option AuthConfig) (a : Authenticator)
      → build_authenticator O auth ≡ ok a
      → (not a.allow_anonymous ≡ needs_token auth)
        × ((token : String) → a.authenticate token ≡ identified auth token)
  build_authenticator-identified none a h =
      let e = build_authenticator-none a h in
      (ap (λ x. not x.allow_anonymous) e, λ token. ap (λ x. x.authenticate token) e)
  build_authenticator-identified (some c) a h =
      let e = build_authenticator-ok c a h in
      (
        ap (λ x. not x.allow_anonymous) e,
        λ token. ap (λ x. x.authenticate token) e ∙ jwt-identified c token,
      )
