-- ===== src/Examples/Codec.antt =====
-- Documents that the strict JSON parser reads or refuses.
use leanbun.Base.{◌≡◌, ◌≢◌, ◌⊎◌, refl, [], ◌∷◌, bytes, ok, err}
use leanbun.Codec.Json.{
  StrictJson, JsonError, null, number, string, array, object, no_items, item, no_fields, field,
  duplicate_key, out_of_fuel,
}
use leanbun.Codec.Parser.{parse_strict_json}
use leanbun.Codec.Limits.Document.{IsAccepted, parse_strict_json-IsAccepted, parse_strict_json_ends}

abbrev nested_document : StrictJson
nested_document = object (
    field (bytes "a") null (
      field (bytes "b")
        (array (item (number (bytes "1")) (item (number (bytes "-2.5e+3")) no_items))) no_fields))

document_read : parse_strict_json (bytes "{\"b\": [1, -2.5e+3], \"a\":null}") ≡ ok nested_document
unfolding parse_strict_json
document_read = refl

repetition_refused :
    parse_strict_json (bytes "{\"a\": 1, \"a\":null}")
    ≡ err (record { position = 12; detail = duplicate_key (bytes "a") })
unfolding parse_strict_json
repetition_refused = refl

-- a space inside a surrogate pair
broken_pair_read :
    parse_strict_json (bytes "\"\\ud83d \\ude00\"") ≡ ok (string (0xf0 ∷ 0x9f ∷ 0x98 ∷ 0x80 ∷ []))
unfolding parse_strict_json
broken_pair_read = refl

parse_strict_json-IsAccepted_example : IsAccepted nested_document
parse_strict_json-IsAccepted_example =
    parse_strict_json-IsAccepted (bytes "{\"b\": [1, -2.5e+3], \"a\":null}") nested_document
      document_read

parse_strict_json_ends_example :
    ((v : StrictJson) × (parse_strict_json (bytes "[tru]") ≡ ok v))
    ⊎ ((e : JsonError) × (parse_strict_json (bytes "[tru]") ≡ err e) × (e.detail ≢ out_of_fuel))
parse_strict_json_ends_example = parse_strict_json_ends (bytes "[tru]")
