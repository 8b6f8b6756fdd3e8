-- ===== src/Examples/Schemas.antt =====
-- A schema that bounds a number, and instances of the theorems on schemas.
use cherenkov.Prelude.{
  ℕ, String, ◌≡◌, ◌≢◌, ◌↔◌, ◌⊎◌, refl, some, none, Result, ok, err, [], ◌∷◌, leb, ◌==◌, nat_eq,
  string_eq, if◌then◌else◌,
}
use cherenkov.Prelude.Dict
use cherenkov.Protocol.{Bytes}
use cherenkov.Core.Namespace
use cherenkov.Core.Namespace.{namespace_of}
use cherenkov.Schema
use cherenkov.Schema.{
  JsonSchema, JsonSchemaRegistryBuilder, new_builder, with_namespace, build, validate,
  validate_with,
}
use cherenkov.Schema.Validation.{Conforms, validate-ok, with_namespace-validate}

abbrev pub first_byte : Bytes → Result String ℕ
first_byte [] = err "empty"
first_byte (b ∷ bytes) = ok b

-- A value is a number, a schema is a bound, and 0 is no schema.
abbrev pub bounds : JsonSchema
bounds = record {
  Value = ℕ;
  Validator = ℕ;
  validator_for = λ v. if v == 0 then err "no bound" else ok v;
  from_slice = first_byte;
  validate = λ bound v. if leb v bound then ok tt else err "too large";
}

abbrev with_orders : JsonSchemaRegistryBuilder bounds
with_orders = record { schemas = Dict.put Dict.empty "orders" 5 }

added : with_namespace {J = bounds} "orders" 5 new_builder ≡ ok with_orders
unfolding Schema.with_namespace
added = refl

with_namespace-validate_example :
    (validator : ℕ) × (bounds.validator_for 5 ≡ ok validator)
    × ((channel : String) (payload : Bytes)
        → (namespace_of channel ≡ "orders"
            → validate (build with_orders) channel payload
              ≡ validate_with bounds validator channel payload)
          × (namespace_of channel ≢ "orders"
              → validate (build with_orders) channel payload
                ≡ validate (build {J = bounds} new_builder) channel payload))
with_namespace-validate_example =
    with_namespace-validate {J = bounds} "orders" 5 new_builder with_orders added

validate-ok_example : (validate (build with_orders) "orders.new" (3 ∷ []) ≡ ok tt) ↔ (
    (Dict.get (build with_orders).schemas (namespace_of "orders.new") ≡ none)
    ⊎ ((validator : ℕ) × (Dict.get (build with_orders).schemas (namespace_of "orders.new")
          ≡ some validator)
        × Conforms bounds validator (3 ∷ [])))
validate-ok_example = validate-ok (build with_orders) "orders.new" (3 ∷ [])

run_test :
    (validate (build with_orders) "orders.new" (3 ∷ []) ≡ ok tt)
    × (validate (build with_orders) "rooms.a" (9 ∷ []) ≡ ok tt)
unfolding Schema.validate Schema.validate_with Schema.build Dict.get Dict.put Dict.empty
    Namespace.namespace_of
run_test = (refl, refl)
