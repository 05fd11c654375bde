-- ===== src/Envelope/Echo.antt =====
-- An envelope that is sent reads back as what it was made of.
use claude_email.Prelude.{
  String, true, false, Option, none, some, str_eq, any, ℤ, pos, ◌≡◌, refl, sym, ◌∙◌, Bool-cases,
  inl, inr, ◌⊎◌, eq_iff,
}
use claude_email.Json.{
  Json, Fields, Items, Python, converted, text, get_field, text_or_empty, object, null, int, field,
  no_fields, no_items, item,
}
use claude_email.Envelope.{
  inbound_kinds, parsed, Envelope, check_version, check_kind, int_or_none, parse_fields,
  envelope_of,
}
use claude_email.Envelope.Build.{
  Answer, add_int, add_text, add_object, add_array, build_envelope, version_of, meta_of,
}

-- `str` of a text and `int` of an int are themselves.
abbrev pub IsPython : Python → Type 0
IsPython py = ((s : String) → py.str (text s) ≡ s) × ((n : ℤ) → py.int_of (int n) ≡ converted n)

-- An optional value in the object.
abbrev pub int_or_null : Option ℤ → Json
int_or_null none = null
int_or_null (some n) = int n

get_field-add_int :
    (key : String) (n : Option ℤ) (rest : Fields)
    → get_field key rest ≡ null
    → str_eq key key ≡ true
    → get_field key (add_int key n rest) ≡ int_or_null n
unfolding get_field
get_field-add_int key none rest h e = h
get_field-add_int key (some n) rest h e = rw (e) refl

get_field-skip_object :
    (key other : String) (fs rest : Fields)
    → str_eq other key ≡ false
    → get_field key (add_object other fs rest) ≡ get_field key rest
unfolding get_field
get_field-skip_object key other no_fields rest e = refl
get_field-skip_object key other (field k v fs) rest e = rw (e) refl

get_field-skip_text :
    (key other s : String) (rest : Fields)
    → str_eq other key ≡ false
    → get_field key (add_text other s rest) ≡ get_field key rest
unfolding get_field
get_field-skip_text key other s rest e = elim (Bool-cases (str_eq s "")) [
  | inl t ↦ rw (t) refl
  | inr t ↦ rw (t, e) refl
]

get_field-skip_array :
    (key other : String) (js : Items) (rest : Fields)
    → str_eq other key ≡ false
    → get_field key (add_array other js rest) ≡ get_field key rest
unfolding get_field
get_field-skip_array key other no_items rest e = refl
get_field-skip_array key other (item j js) rest e = rw (e) refl

get_field-skip_int :
    (key other : String) (n : Option ℤ) (rest : Fields)
    → str_eq other key ≡ false
    → get_field key (add_int other n rest) ≡ get_field key rest
unfolding get_field
get_field-skip_int key other none rest e = refl
get_field-skip_int key other (some n) rest e = rw (e) refl

get_field-ask_id :
    (now : String) (a : Answer) → get_field "ask_id" (meta_of now a) ≡ int_or_null a.ask_id
unfolding get_field
get_field-ask_id now a =
    let replies = add_array "suggested_replies" a.suggested_replies no_fields in
    let progress = add_object "progress" a.progress replies in
    get_field-add_int "ask_id" a.ask_id (add_text "routed_via" a.routed_via progress)
      (get_field-skip_text "ask_id" "routed_via" a.routed_via progress refl
        ∙ get_field-skip_object "ask_id" "progress" a.progress replies refl
        ∙ get_field-skip_array "ask_id" "suggested_replies" a.suggested_replies no_fields refl)
      refl

abbrev pub fields_of : String → Answer → Fields
fields_of now a = field "v" (int (version_of a.v)) (
    field "kind" (text a.kind) (
      field "body" (text a.body) (
        field "meta" (object (meta_of now a)) (
          add_int "task_id" a.task_id
            (add_object "data" a.content (add_object "error" a.error no_fields))))))

get_field-rest :
    (key : String) (a : Answer)
    → str_eq "data" key ≡ false
    → str_eq "error" key ≡ false
    → get_field key (add_object "data" a.content (add_object "error" a.error no_fields)) ≡ null
unfolding get_field
get_field-rest key a d e =
    get_field-skip_object key "data" a.content (add_object "error" a.error no_fields) d
    ∙ get_field-skip_object key "error" a.error no_fields e

get_field-task_id :
    (now : String) (a : Answer) → get_field "task_id" (fields_of now a) ≡ int_or_null a.task_id
unfolding get_field
get_field-task_id now a =
    get_field-add_int "task_id" a.task_id
      (add_object "data" a.content (add_object "error" a.error no_fields))
      (get_field-rest "task_id" a refl refl) refl

get_field-priority : (now : String) (a : Answer) → get_field "priority" (fields_of now a) ≡ null
unfolding get_field
get_field-priority now a =
    get_field-skip_int "priority" "task_id" a.task_id
      (add_object "data" a.content (add_object "error" a.error no_fields)) refl
    ∙ get_field-rest "priority" a refl refl

int_or_none-int :
    (py : Python) (n : Option ℤ) → IsPython py → int_or_none py (int_or_null n) ≡ parsed n
unfolding int_or_none
int_or_none-int py none h = refl
int_or_none-int py (some n) h = rw (h.1 n) refl

check_version-int :
    (py : Python) (v : ℤ) (ask_id : Option ℤ)
    → (v ≡ pos 1) ⊎ (v ≡ pos 2)
    → check_version py (int v) ask_id ≡ parsed v
unfolding check_version
check_version-int py v ask_id (inl e) = rw (e) refl
check_version-int py v ask_id (inr e) = rw (e) refl

text_or_empty-text : (py : Python) (s : String) → IsPython py → text_or_empty py (text s) ≡ s
unfolding text_or_empty
text_or_empty-text py s h = elim (Bool-cases (str_eq s "")) [
  | inl e ↦ rw (e) (sym ((eq_iff s "").0 e))
  | inr e ↦ rw (e) (h.0 s)
]

-- An envelope that is built with an inbound kind and a supported version is accepted when it is
-- parsed, with the version, kind, body, task and question that it was built with.
pub parse_fields-build_envelope :
    (py : Python) (now : String) (a : Answer) (fields : Fields)
    → IsPython py
    → build_envelope now a ≡ object fields
    → any (str_eq a.kind) inbound_kinds ≡ true
    → (version_of a.v ≡ pos 1) ⊎ (version_of a.v ≡ pos 2)
    → (env : Envelope) × (parse_fields py fields ≡ parsed env)
      × (env.v ≡ version_of a.v)
      × (env.kind ≡ a.kind)
      × (env.body ≡ a.body)
      × (env.task_id ≡ a.task_id)
      × (env.ask_id ≡ a.ask_id)
      × (env.priority ≡ none)
unfolding build_envelope parse_fields get_field check_kind
parse_fields-build_envelope py now a fields h b k v =
    let q : fields ≡ fields_of now a = cc (b) in
    let meta = meta_of now a in
    let env =
      envelope_of py (version_of a.v) a.kind a.task_id none a.ask_id meta (fields_of now a) in
    rw (q) (
      env,
      rw
          (
            get_field-ask_id now a,
            int_or_none-int py a.ask_id h,
            check_version-int py (version_of a.v) a.ask_id v,
            k,
            get_field-task_id now a,
            int_or_none-int py a.task_id h,
            get_field-priority now a,
          )
          refl,
      refl,
      refl,
      text_or_empty-text py a.body h,
      refl,
      refl,
      refl,
    )
