-- ===== src/Envelope/Tests.antt =====
-- Envelopes: one that is accepted, one with a list as its kind, and one that is built.
use claude_email.Prelude.{String, true, false, none, some, pos, ◌≡◌, refl, inr}
use claude_email.Json.{
  Json, Fields, Python, Conversion, converted, bool, int, float, text, array, object, field,
  no_fields, no_items, get_field, fields_or_empty, hashable, overflow, Conversion, refused,
}
use claude_email.Envelope.{
  Envelope, parsed, overflow_error, parse_fields, envelope_of, int_or_none, check_version,
  check_kind,
}
use claude_email.Envelope.Build.{Answer, answer, build_envelope, version_of}
use claude_email.Envelope.Echo.{IsPython, fields_of, parse_fields-build_envelope}

abbrev pub str_of : Json → String
str_of (text s) = s
str_of _ = "…"

abbrev pub int_of : Json → Conversion
int_of (int n) = converted n
int_of (bool b) = converted (pos 0)
int_of (float s) = overflow
int_of _ = refused

abbrev pub python : Python
python = record { str = str_of; repr = str_of; int_of = int_of; float_truth = λ s. true }

abbrev command : Fields
command = field "v" (int (pos 1)) (
    field "kind" (text "command")
      (field "body" (text "fix it") (field "task_id" (text "") no_fields)))

abbrev command_envelope : Envelope
command_envelope = envelope_of python (pos 1) "command" none none none no_fields command

command-parsed : parse_fields python command ≡ parsed command_envelope
unfolding parse_fields get_field check_kind
command-parsed = refl

abbrev listed : Fields
listed = field "v" (int (pos 2)) (field "kind" (array no_items) no_fields)

no_ask_id :
    int_or_none python (get_field "ask_id" (fields_or_empty (get_field "meta" listed)))
    ≡ parsed none
unfolding int_or_none get_field
no_ask_id = refl

version_two : check_version python (get_field "v" listed) none ≡ parsed (pos 2)
unfolding check_version get_field
version_two = refl

list_kind : hashable (get_field "kind" listed) ≡ false
unfolding get_field
list_kind = refl

-- an infinite float as the task's id
overflows :
    parse_fields python (
      field "v"
        (int (pos 1))
        (field "kind" (text "cancel") (field "task_id" (float "Infinity") no_fields)))
    ≡ overflow_error
unfolding parse_fields get_field check_kind
overflows = refl

abbrev status : Answer
status = record (answer "status" "Task #4 stalled") {
  task_id = some (pos 4);
  ask_id = some (pos 9);
}

python-IsPython : IsPython python
python-IsPython = (λ s. refl, λ n. refl)

status-built : build_envelope "noon" status ≡ object (fields_of "noon" status)
unfolding build_envelope
status-built = refl

parse_fields-build_envelope_example :
    (env : Envelope) × (parse_fields python (fields_of "noon" status) ≡ parsed env)
    × (env.v ≡ version_of status.v)
    × (env.kind ≡ status.kind)
    × (env.body ≡ status.body)
    × (env.task_id ≡ status.task_id)
    × (env.ask_id ≡ status.ask_id)
    × (env.priority ≡ none)
parse_fields-build_envelope_example =
    parse_fields-build_envelope python "noon" status (fields_of "noon" status) python-IsPython
      status-built refl (inr refl)
