-- ===== src/Schema/Validation.antt =====
-- What `validate` of crates/cherenkov-schema/src/registry.rs accepts.
use cherenkov.Prelude.{
  String, ◌≡◌, ◌≢◌, ◌↔◌, ◌⊎◌, refl, ap, sym, ◌∙◌, inl, inr, none, some, Result, ok, err, arith,
  Option-cases, Result-cases, string_eq, eq_iff, ◌==◌, if◌then◌else◌,
}
use cherenkov.Prelude.Dict
use cherenkov.Prelude.Dict.{get-put}
use cherenkov.Protocol.{Bytes}
use cherenkov.Core.Namespace.{namespace_of}
use cherenkov.Schema.{
  JsonSchema, RegistryError, JsonSchemaRegistry, JsonSchemaRegistryBuilder, with_namespace, build,
  validate, validate_with,
}

-- The payload is JSON that the validator accepts.
pub record Conforms (J : JsonSchema) (validator : J.Validator) (payload : Bytes) : Type 0 where
  pub value : J.Value
  pub parsed : J.from_slice payload ≡ ok value
  pub valid : J.validate validator value ≡ ok tt

module _ {J : JsonSchema} where
  abbrev schemas_of :
      Result RegistryError (JsonSchemaRegistryBuilder J) → Dict.Dict String J.Validator
  schemas_of (ok b) = b.schemas
  schemas_of (err e) = Dict.empty

  validate_with-ok :
      (validator : J.Validator) (channel : String) (payload : Bytes)
      → (validate_with J validator channel payload ≡ ok tt) ↔ Conforms J validator payload
  unfolding validate_with
  validate_with-ok validator channel payload = elim (Result-cases (J.from_slice payload)) [
    | inr (e, h) ↦ (λ k. absurd (ground (arith, h, k)), λ c. absurd (ground (arith, h, c.parsed)))
    | inl (value, h) ↦ elim (Result-cases (J.validate validator value)) [
      | inr (e, k) ↦ (
        λ l. absurd (ground (arith, h, k, l)),
        λ c. absurd (ground (arith, h, k, c.parsed, c.valid)),
      )
      | inl (u, k) ↦ (
        λ l. record { value = value; parsed = h; valid = k },
        λ c. rw (h, validate_with) (rw k refl),
      )
    ]
  ]

  -- A payload is accepted exactly when its channel's namespace has no schema, or when it is JSON that
  -- conforms to the schema of the namespace.
  pub validate-ok :
      (r : JsonSchemaRegistry J) (channel : String) (payload : Bytes)
      → (validate r channel payload ≡ ok tt) ↔ (
          (Dict.get r.schemas (namespace_of channel) ≡ none)
          ⊎ ((validator : J.Validator) × (Dict.get r.schemas (namespace_of channel)
                ≡ some validator)
              × Conforms J validator payload))
  unfolding validate
  validate-ok r channel payload = elim (Option-cases (Dict.get r.schemas (namespace_of channel))) [
    | inl e ↦ (λ h. inl e, λ h. rw (e, validate) refl)
    | inr (validator, e) ↦ (
      λ h. inr (validator, e, (validate_with-ok validator channel payload).0 (ap_of validator e h)),
      λ h. elim h [
        | inl gone ↦ absurd (ground (arith, gone, e))
        | inr (other, k, c) ↦ rw (k, validate) ((validate_with-ok other channel payload).1 c)
      ],
    )
  ]
    where
      ap_of :
          (validator : J.Validator)
          → Dict.get r.schemas (namespace_of channel) ≡ some validator
          → validate r channel payload ≡ ok tt
          → validate_with J validator channel payload ≡ ok tt
      ap_of validator e h = sym (opens validator e) ∙ h
        where
          opens :
              (validator : J.Validator)
              → Dict.get r.schemas (namespace_of channel) ≡ some validator
              → validate r channel payload ≡ validate_with J validator channel payload
          opens validator e = rw (e, validate) refl

  validate-same :
      (r s : JsonSchemaRegistry J) (channel : String) (payload : Bytes)
      → Dict.get r.schemas (namespace_of channel) ≡ Dict.get s.schemas (namespace_of channel)
      → validate r channel payload ≡ validate s channel payload
  unfolding validate
  validate-same r s channel payload e =
      elim (Option-cases (Dict.get s.schemas (namespace_of channel))) [
        | inl h ↦ rw (e ∙ h, validate) (rw (h, validate) refl)
        | inr (v, h) ↦ rw (e ∙ h, validate) (rw (h, validate) refl)
      ]

  -- A schema that is added to a builder compiled to a validator, which from then on judges the
  -- payloads of the channels in its namespace; channels in other namespaces are judged as before.
  pub with_namespace-validate :
      (namespace : String) (schema : J.Value) (b b' : JsonSchemaRegistryBuilder J)
      → with_namespace namespace schema b ≡ ok b'
      → (validator : J.Validator) × (J.validator_for schema ≡ ok validator)
        × ((channel : String) (payload : Bytes)
            → (namespace_of channel ≡ namespace
                → validate (build b') channel payload ≡ validate_with J validator channel payload)
              × (namespace_of channel ≢ namespace
                  → validate (build b') channel payload ≡ validate (build b) channel payload))
  unfolding with_namespace build validate
  with_namespace-validate namespace schema b b' h = elim (Result-cases (J.validator_for schema)) [
    | inr (x, e) ↦ absurd (ground (arith, h, e))
    | inl (validator, e) ↦ (
      validator,
      e,
      λ channel payload. (
        λ same. judged validator channel payload (
            looked_up validator channel e
            ∙ ground (arith, eq_iff namespace (namespace_of channel), same)),
        λ ne. validate-same (build b') (build b) channel payload (
            looked_up validator channel e
            ∙ ground (arith, eq_iff namespace (namespace_of channel), ne)),
      ),
    )
  ]
    where
      looked_up :
          (validator : J.Validator) (channel : String)
          → J.validator_for schema ≡ ok validator
          → Dict.get b'.schemas (namespace_of channel) ≡ (
              if namespace == namespace_of channel
              then some validator
              else Dict.get b.schemas (namespace_of channel))
      looked_up validator channel e =
          ap (λ x. Dict.get (schemas_of x) (namespace_of channel)) (sym h)
          ∙ rw e (get-put b.schemas namespace (namespace_of channel) validator)

      judged :
          (validator : J.Validator) (channel : String) (payload : Bytes)
          → Dict.get b'.schemas (namespace_of channel) ≡ some validator
          → validate (build b') channel payload ≡ validate_with J validator channel payload
      judged validator channel payload e = rw (e, validate) refl
