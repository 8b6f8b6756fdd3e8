-- ===== src/Schema.antt =====
-- crates/cherenkov-schema/src/registry.rs: JSON schemas by namespace. `jsonschema` and `serde_json`
-- are a parameter.
pub mod Validation
use Prim.Native.String as Text
use cherenkov.Prelude.{
  ℕ, String, Bool, Option, none, some, Result, ok, err, ◌==◌, string_eq, nat_eq,
}
use cherenkov.Prelude.Dict
use cherenkov.Prelude.Dict.{Dict}
use cherenkov.Protocol.{Bytes}
use cherenkov.Core.Types.{SchemaError}
use cherenkov.Core.Namespace.{namespace_of}
use cherenkov.Core.Traits.{SchemaValidator}

-- The `String` of an error is what its `Display` writes.
pub record JsonSchema : Type 1 where
  pub Value : Type 0
  pub Validator : Type 0
  pub validator_for : Value → Result String Validator
  pub from_slice : Bytes → Result String Value
  pub validate : Validator → Value → Result String (Unit {0})

pub data RegistryError : Type 0 where
  invalid_schema : String → String → RegistryError

pub record JsonSchemaRegistryBuilder (J : JsonSchema) : Type 0 where
  pub schemas : Dict String J.Validator

pub record JsonSchemaRegistry (J : JsonSchema) : Type 0 where
  pub schemas : Dict String J.Validator

-- `validate` once the namespace has a validator
unfoldable pub validate_with :
    (J : JsonSchema) → J.Validator → String → Bytes → Result SchemaError (Unit {0})
validate_with J validator channel payload = elim (J.from_slice payload) [
  | err e ↦ err (SchemaError.payload_rejected channel (Text.◌++◌ "payload is not valid JSON: " e))
  | ok value ↦ elim (J.validate validator value) [
    | err e ↦ err (SchemaError.payload_rejected channel e)
    | ok u ↦ ok tt
  ]
]

module _ {J : JsonSchema} where
  abbrev pub new_builder : JsonSchemaRegistryBuilder J
  new_builder = record { schemas = Dict.empty }

  unfoldable pub with_namespace :
      String
      → J.Value
      → JsonSchemaRegistryBuilder J
      → Result RegistryError (JsonSchemaRegistryBuilder J)
  with_namespace namespace schema b = elim (J.validator_for schema) [
    | err reason ↦ err (RegistryError.invalid_schema namespace reason)
    | ok validator ↦ ok (record { schemas = Dict.put b.schemas namespace validator })
  ]

  unfoldable pub build : JsonSchemaRegistryBuilder J → JsonSchemaRegistry J
  build b = record { schemas = b.schemas }

  abbrev pub empty : JsonSchemaRegistry J
  empty = record { schemas = Dict.empty }

  unfoldable pub len : JsonSchemaRegistry J → ℕ
  len r = Dict.size r.schemas

  unfoldable pub is_empty : JsonSchemaRegistry J → Bool
  is_empty r = Dict.size r.schemas == 0

  unfoldable pub validate : JsonSchemaRegistry J → String → Bytes → Result SchemaError (Unit {0})
  unfolding validate_with
  validate r channel payload = elim (Dict.get r.schemas (namespace_of channel)) [
    | none ↦ ok tt
    | some validator ↦ validate_with J validator channel payload
  ]

-- `impl SchemaValidator for JsonSchemaRegistry`
abbrev pub schema_validator : {J : JsonSchema} → JsonSchemaRegistry J → SchemaValidator
schema_validator r = record { validate = validate r }
