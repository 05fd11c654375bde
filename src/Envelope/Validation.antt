-- ===== src/Envelope/Validation.antt =====
-- What an envelope that is accepted is like, and the version of the answer to it.
use claude_email.Prelude.{
  String, true, false, ◌||◌, Option, some, str_eq, any, ℤ, pos, negsuc, ltb_ℤ, ◌≡◌, refl, arith,
  Bool-cases, Option-cases, inl, inr, ◌⊎◌, ap, subst,
}
use claude_email.Json.{
  Json, Fields, Python, text, get_field, fields_or_empty, number, array, object, null, int, bool,
  float,
}
use claude_email.Envelope.{
  negotiate_v, version_ceiling, inbound_kinds, Parsed, parsed, envelope_error, overflow_error,
  type_error, ◌>>=◌, Envelope, supported, check_version, check_kind, int_or_none, parse_fields,
  envelope_of,
}

in_range :
    (v : ℤ) → (ltb_ℤ v (pos 1) || ltb_ℤ version_ceiling v) ≡ false → (v ≡ pos 1) ⊎ (v ≡ pos 2)
in_range (pos n) h =
    let either : (n ≡ 1) ⊎ (n ≡ 2) = ground arith in
    elim either [ inl e ↦ inl (ap pos e) | inr e ↦ inr (ap pos e) ]
in_range (negsuc n) h = ground arith

negotiate_v_kept : (v : ℤ) → (v ≡ pos 1) ⊎ (v ≡ pos 2) → negotiate_v v ≡ v
unfolding negotiate_v
negotiate_v_kept v (inl e) = rw (e) refl
negotiate_v_kept v (inr e) = rw (e) refl

-- A step of a chain that ends in a value has one itself.
parsed-bind :
    {A B : Type 0} (m : Parsed A) (f : A → Parsed B) (b : B)
    → (m >>= f) ≡ parsed b
    → (a : A) × (m ≡ parsed a) × (f a ≡ parsed b)
parsed-bind (parsed a) f b h = (a, refl, h)
parsed-bind (envelope_error c m i) f b h = cc
parsed-bind overflow_error f b h = cc
parsed-bind type_error f b h = cc

some_inj : (a b : ℤ) → some a ≡ some b → a ≡ b
some_inj a b h = cc

parsed_inj : {A : Type 0} (a b : A) → ◌≡◌ {A = Parsed A} (parsed a) (parsed b) → a ≡ b
parsed_inj a b h = cc

supported_lem :
    (py : Python) (j : Json) (v : ℤ)
    → supported py j ≡ some v
    → (number j ≡ some v) × ((v ≡ pos 1) ⊎ (v ≡ pos 2))
supported_lem py j v h = elim (Option-cases (number j)) [
  | inl e ↦ cc (h, e)
  | inr (n, e) ↦ elim (Bool-cases (ltb_ℤ n (pos 1) || ltb_ℤ version_ceiling n)) [
    | inl t ↦ cc (h, e, t)
    | inr t ↦ let q : n ≡ v = cc (h, e, t) in rw (← q) (e, in_range n t)
  ]
]

check_version-parsed :
    (py : Python) (j : Json) (ask_id : Option ℤ) (v : ℤ)
    → check_version py j ask_id ≡ parsed v
    → (number j ≡ some v) × ((v ≡ pos 1) ⊎ (v ≡ pos 2))
unfolding check_version
check_version-parsed py j ask_id v h = elim (Option-cases (supported py j)) [
  | inl e ↦ cc (h, e)
  | inr (n, e) ↦ let q : n ≡ v = cc (h, e) in supported_lem py j v (rw (← q) e)
]

check_kind-parsed :
    (py : Python) (j : Json) (ask_id : Option ℤ) (kind : String)
    → check_kind py j ask_id ≡ parsed kind
    → (j ≡ text kind) × (any (str_eq kind) inbound_kinds ≡ true)
unfolding check_kind
check_kind-parsed py (text s) ask_id kind h = elim (Bool-cases (any (str_eq s) inbound_kinds)) [
  | inl e ↦
      let q : s ≡ kind = cc (h, e) in
      (ap text q, subst (λ k. any (str_eq k) inbound_kinds ≡ true) q e)
  | inr e ↦ cc (h, e)
]
check_kind-parsed py null ask_id kind h = cc
check_kind-parsed py (bool b) ask_id kind h = cc
check_kind-parsed py (int b) ask_id kind h = cc
check_kind-parsed py (float b) ask_id kind h = cc
check_kind-parsed py (array b) ask_id kind h = cc
check_kind-parsed py (object b) ask_id kind h = cc

-- An envelope is accepted only with the version 1 or 2, which the answer then has too, with a
-- kind that is one of the nine texts, and with the `ask_id` of its `meta`.
pub parse_fields-accepted :
    (py : Python) (fields : Fields) (env : Envelope)
    → parse_fields py fields ≡ parsed env
    → (number (get_field "v" fields) ≡ some env.v)
      × ((env.v ≡ pos 1) ⊎ (env.v ≡ pos 2))
      × (negotiate_v env.v ≡ env.v)
      × (get_field "kind" fields ≡ text env.kind)
      × (any (str_eq env.kind) inbound_kinds ≡ true)
      × (int_or_none py (get_field "ask_id" (fields_or_empty (get_field "meta" fields)))
          ≡ parsed env.ask_id)
unfolding parse_fields
parse_fields-accepted py fields env h =
    let meta = fields_or_empty (get_field "meta" fields) in
    let (ask_id, a, h₁) = parsed-bind (int_or_none py (get_field "ask_id" meta)) _ env h in
    let (v, b, h₂) = parsed-bind (check_version py (get_field "v" fields) ask_id) _ env h₁ in
    let (kind, c, h₃) = parsed-bind (check_kind py (get_field "kind" fields) ask_id) _ env h₂ in
    let (task_id, d, h₄) = parsed-bind (int_or_none py (get_field "task_id" fields)) _ env h₃ in
    let (priority, e, h₅) = parsed-bind (int_or_none py (get_field "priority" fields)) _ env h₄ in
    let q = parsed_inj (envelope_of py v kind task_id priority ask_id meta fields) env h₅ in
    let (n, r) = check_version-parsed py (get_field "v" fields) ask_id v b in
    let (k, i) = check_kind-parsed py (get_field "kind" fields) ask_id kind c in
    rw (← q) (n, r, negotiate_v_kept v r, k, i, a)
