-- ===== src/Sync/Event/Shape.antt =====
-- `_validate_json_shape` of apps/server/src/balloon_crumbs_server/service.py. A dictionary that
-- `json` has read has texts for keys, and a JSON value has one of the constructors, so that the
-- test of a key's type and the last test of a value's type never raise.
use balloon_crumbs.Prelude.{ℕ, suc, String, not, ltb, length}
use balloon_crumbs.Result.{relay_service_error, Result, ok, err, ◌>>◌, reject}
use balloon_crumbs.Json.{
  Value, double, text, array, object, Items, nil, cons, Fields, end, field, is_finite, keys,
  length_items,
}
use balloon_crumbs.Text.{text_len}

abbrev pub bad_request : {A : Type 0} → String → Result A
bad_request message = err (relay_service_error 400 message)

unfoldable mutual
  pub validate_json_shape : Value → ℕ → Result (Unit {0})
  validate_json_shape (object fs) depth = do
    reject (ltb 16 depth) (relay_service_error 400 "Event JSON is too deeply nested")
    reject (ltb 128 (length (keys fs))) (relay_service_error 400 "Event object has too many fields")
    validate_fields fs (suc depth)
  validate_json_shape (array vs) depth = do
    reject (ltb 16 depth) (relay_service_error 400 "Event JSON is too deeply nested")
    reject (ltb 1000 (length_items vs)) (relay_service_error 400 "Event array is too large")
    validate_items vs (suc depth)
  validate_json_shape (text s) depth = do
    reject (ltb 16 depth) (relay_service_error 400 "Event JSON is too deeply nested")
    reject (ltb 4096 (text_len s)) (relay_service_error 400 "Event string is too long")
  validate_json_shape (double bits) depth = do
    reject (ltb 16 depth) (relay_service_error 400 "Event JSON is too deeply nested")
    reject (not (is_finite bits)) (relay_service_error 400 "Event number must be finite")
  validate_json_shape _ depth =
      reject (ltb 16 depth) (relay_service_error 400 "Event JSON is too deeply nested")

  pub validate_items : Items → ℕ → Result (Unit {0})
  validate_items nil depth = ok tt
  validate_items (cons v vs) depth = do validate_json_shape v depth; validate_items vs depth

  pub validate_fields : Fields → ℕ → Result (Unit {0})
  validate_fields end depth = ok tt
  validate_fields (field k v fs) depth = do
    reject (ltb 256 (text_len k)) (relay_service_error 400 "Event object key is invalid")
    validate_json_shape v depth
    validate_fields fs depth
