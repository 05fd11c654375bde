-- ===== src/Envelope/Errors.antt =====
-- The exceptions of Python's own that leave the parse of an envelope.
use claude_email.Prelude.{Option, ℤ, ◌≡◌, refl, false}
use claude_email.Json.{
  Json, Fields, Python, text, get_field, fields_or_empty, hashable, array, object, null, int, bool,
  float,
}
use claude_email.Envelope.{parsed, type_error, check_version, check_kind, int_or_none, parse_fields}

check_kind-unhashable :
    (py : Python) (j : Json) (ask_id : Option ℤ)
    → hashable j ≡ false
    → check_kind py j ask_id ≡ type_error
unfolding check_kind
check_kind-unhashable py (array a) ask_id h = refl
check_kind-unhashable py (object a) ask_id h = refl
check_kind-unhashable py null ask_id h = cc
check_kind-unhashable py (bool b) ask_id h = cc
check_kind-unhashable py (int b) ask_id h = cc
check_kind-unhashable py (float b) ask_id h = cc
check_kind-unhashable py (text b) ask_id h = cc

-- An object with a supported version whose kind is a list or an object raises TypeError, no
-- EnvelopeError.
pub parse_fields-unhashable :
    (py : Python) (fields : Fields) (ask_id : Option ℤ) (v : ℤ)
    → int_or_none py (get_field "ask_id" (fields_or_empty (get_field "meta" fields)))
      ≡ parsed ask_id
    → check_version py (get_field "v" fields) ask_id ≡ parsed v
    → hashable (get_field "kind" fields) ≡ false
    → parse_fields py fields ≡ type_error
unfolding parse_fields
parse_fields-unhashable py fields ask_id v a b c =
    rw (a, b, check_kind-unhashable py (get_field "kind" fields) ask_id c) refl
