-- ===== src/Server/Build/Schemas.antt =====
-- What the schemas in the settings of crates/cherenkov-server/src/config.rs say, and that the registry
-- which app.rs builds from them validates accordingly.
use cherenkov.Prelude.{
  String, ◌≡◌, refl, ap, sym, ◌∙◌, Option, none, some, Result, ok, err, and_then_ok-eq_ok, ok_inj,
  [], ◌∷◌, ◌==◌, string_eq, if◌then◌else◌, arith, Result-cases, Option-cases, inl, inr,
}
use cherenkov.Prelude.Dict
use cherenkov.Prelude.Dict.{get-put, get-empty}
use cherenkov.Core.Namespace.{namespace_of}
use cherenkov.Core.Types.{SchemaError}
use cherenkov.Protocol.{Bytes}
use cherenkov.Schema
use cherenkov.Schema.{
  JsonSchemaRegistry, JsonSchemaRegistryBuilder, with_namespace, validate, validate_with,
}
use cherenkov.Server.Config.{NamespaceConfig, NamespacesConfig, validate_schema_source}
use cherenkov.Server.Parts.{
  Outside, read_schema, schema_value, add_namespace, add_namespaces, build_schema_registry,
}

module _ (O : Outside) where
  abbrev pub from_file : String → Option O.json.Value
  from_file path = elim (O.read_file path) [
    | err e ↦ none
    | ok bytes ↦ elim (O.json.from_slice bytes) [ err e ↦ none | ok value ↦ some value ]
  ]

  -- The schema of a namespace is written in the settings or stands in a file, and not both.
  abbrev pub written : Option O.json.Value → Option String → Option O.json.Value
  written (some value) none = some value
  written none (some path) = from_file path
  written none none = none
  written (some value) (some path) = none

  abbrev pub compiled : Option O.json.Value → Option O.json.Validator
  compiled none = none
  compiled (some value) = elim (O.json.validator_for value) [
    | ok validator ↦ some validator
    | err e ↦ none
  ]

  -- The schema that the settings name last for a namespace, or what was there before
  abbrev pub schema_for :
      NamespacesConfig O.json.Value → String → Option O.json.Validator → Option O.json.Validator
  schema_for [] namespace before = before
  schema_for ((declared, c) ∷ rest) namespace before =
      schema_for rest namespace
        (if declared == namespace then compiled (written c.schema c.schema_path) else before)

  -- A payload is judged by the schema of its channel's namespace, if it has one.
  abbrev pub judged : Option O.json.Validator → String → Bytes → Result SchemaError (Unit {0})
  judged none channel payload = ok tt
  judged (some validator) channel payload = validate_with O.json validator channel payload

  read_schema-ok :
      (namespace path : String) (value : O.json.Value)
      → read_schema O namespace path ≡ ok value
      → from_file path ≡ some value
  unfolding read_schema
  read_schema-ok namespace path value h = elim (Result-cases (O.read_file path)) [
    | inr (e, k) ↦ absurd (ground (arith, rw (k, read_schema) at h))
    | inl (content, k) ↦ elim (Result-cases (O.json.from_slice content)) [
      | inr (e, m) ↦ absurd (ground (arith, rw (k, m, read_schema) at h))
      | inl (v, m) ↦
          rw (k, from_file) (rw m (ap some (ok_inj v value (rw (k, m, read_schema) at h))))
    ]
  ]

  schema_value-ok :
      (namespace : String) (schema : Option O.json.Value) (path : Option String)
      (value : O.json.Value)
      → schema_value O namespace schema path ≡ ok value
      → written schema path ≡ some value
  unfolding schema_value
  schema_value-ok namespace (some v) none value h = ground (arith, h)
  schema_value-ok namespace none (some path) value h = read_schema-ok namespace path value h
  schema_value-ok namespace none none value h = absurd (ground (arith, h))
  schema_value-ok namespace (some v) (some path) value h = absurd (ground (arith, h))

  get-with_namespace :
      (namespace : String) (value : O.json.Value) (b v : JsonSchemaRegistryBuilder O.json)
      (other : String)
      → with_namespace namespace value b ≡ ok v
      → Dict.get v.schemas other
        ≡ (if namespace == other then compiled (some value) else Dict.get b.schemas other)
  unfolding with_namespace
  get-with_namespace namespace value b v other h =
      elim (Result-cases (O.json.validator_for value)) [
        | inr (e, k) ↦ absurd (ground (arith, h, k))
        | inl (validator, k) ↦
            ap (λ x. Dict.get x.schemas other)
              (sym (
                ok_inj (record { schemas = Dict.put b.schemas namespace validator }) v
                  (rw (k, with_namespace) at h)))
            ∙ get-put b.schemas namespace other validator
            ∙ ap (λ o. if namespace == other then o else Dict.get b.schemas other)
                (sym (compiled-ok value validator k))
      ]
    where
      compiled-ok :
          (value : O.json.Value) (validator : O.json.Validator)
          → O.json.validator_for value ≡ ok validator
          → compiled (some value) ≡ some validator
      compiled-ok value validator k = rw (k, compiled) refl

  get-add_namespace :
      (namespace : String) (c : NamespaceConfig O.json.Value)
      (b v : JsonSchemaRegistryBuilder O.json) (other : String)
      → add_namespace O namespace c b ≡ ok v
      → Dict.get v.schemas other ≡ (
          if namespace == other
          then compiled (written c.schema c.schema_path)
          else Dict.get b.schemas other)
  unfolding add_namespace
  get-add_namespace namespace c b v other h = elim (Result-cases (validate_schema_source c)) [
    | inr (e, k) ↦ absurd (ground (arith, rw (k, add_namespace) at h))
    | inl (_, k) ↦ elim (Result-cases (schema_value O namespace c.schema c.schema_path)) [
      | inr (e, m) ↦ absurd (ground (arith, rw (k, m, add_namespace) at h))
      | inl (value, m) ↦ elim (Result-cases (with_namespace namespace value b)) [
        | inr (e, n) ↦ absurd (ground (arith, rw (k, m, n, add_namespace) at h))
        | inl (u, n) ↦
            ap (λ x. Dict.get x.schemas other) (sym (ok_inj u v (rw (k, m, n, add_namespace) at h)))
            ∙ get-with_namespace namespace value b u other n
            ∙ ap (λ o. if namespace == other then compiled o else Dict.get b.schemas other)
                (sym (schema_value-ok namespace c.schema c.schema_path value m))
      ]
    ]
  ]

  get-add_namespaces :
      (namespaces : NamespacesConfig O.json.Value) (b v : JsonSchemaRegistryBuilder O.json)
      (other : String)
      → add_namespaces O namespaces b ≡ ok v
      → Dict.get v.schemas other ≡ schema_for namespaces other (Dict.get b.schemas other)
  unfolding add_namespaces
  get-add_namespaces [] b v other h = ap (λ x. Dict.get x.schemas other) (sym (ok_inj b v h))
  get-add_namespaces ((namespace, c) ∷ rest) b v other h =
      let (u, added, others) = and_then_ok-eq_ok (add_namespace O namespace c b) _ v h in
      get-add_namespaces rest u v other others
      ∙ ap (schema_for rest other) (get-add_namespace namespace c b u other added)

  validate-judged :
      (r : JsonSchemaRegistry O.json) (channel : String) (payload : Bytes)
      → validate r channel payload
        ≡ judged (Dict.get r.schemas (namespace_of channel)) channel payload
  unfolding validate
  validate-judged r channel payload =
      elim (Option-cases (Dict.get r.schemas (namespace_of channel))) [
        | inl e ↦ rw (e, validate) refl
        | inr (v, e) ↦ rw (e, validate) refl
      ]

  pub build_schema_registry-judged :
      (namespaces : NamespacesConfig O.json.Value) (r : JsonSchemaRegistry O.json)
      → build_schema_registry O namespaces ≡ ok r
      → (channel : String) (payload : Bytes)
      → validate r channel payload
        ≡ judged (schema_for namespaces (namespace_of channel) none) channel payload
  unfolding build_schema_registry Schema.build
  build_schema_registry-judged namespaces r h channel payload =
      let (b, added, rest) =
        and_then_ok-eq_ok (add_namespaces O namespaces Schema.new_builder) _ r h in
      validate-judged r channel payload
      ∙ ap (λ o. judged o channel payload)
          (ap (λ x. Dict.get x.schemas (namespace_of channel))
              (sym (ok_inj (Schema.build b) r rest))
            ∙ get-add_namespaces namespaces Schema.new_builder b (namespace_of channel) added
            ∙ ap (schema_for namespaces (namespace_of channel)) (get-empty (namespace_of channel)))
