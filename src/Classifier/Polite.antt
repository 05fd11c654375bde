-- ===== src/Classifier/Polite.antt =====
-- The loop that strips polite prefixes ends by itself, at a text without one.
use Prim.Native.Char
use claude_email.Prelude.{
  ◌+◌, ◌≤◌, ◌<◌, subst, ap, String, none, some, List, [], ◌∷◌, ◌≡◌, arith, Bool-cases, Option-cases,
  inl, inr, ◌==◌, text_length, rounds_end, All,
}
use claude_email.Classifier.{
  after_prefix, lstrip, ends_word, stripped_of, strip_first, strip_polite_step, strip_polite_from,
  polite_prefixes,
}

lstrip-text_length : (s : String) → text_length (lstrip s) ≤ text_length s
unfolding lstrip
lstrip-text_length String.[] = omega arith
lstrip-text_length (String.◌∷◌ c s) = ground (arith, lstrip-text_length s)

after_prefix-text_length :
    (p s r : String) → after_prefix p s ≡ some r → text_length s ≡ text_length p + text_length r
unfolding after_prefix
after_prefix-text_length String.[] s r h = let e : s ≡ r = cc (h) in omega (arith, ap text_length e)
after_prefix-text_length (String.◌∷◌ c p) String.[] r h = cc
after_prefix-text_length (String.◌∷◌ c p) (String.◌∷◌ d s) r h =
    elim (Bool-cases (Char.code c == Char.code d)) [
      | inl e ↦
          let k : after_prefix p s ≡ some r = cc (h, e) in
          omega (arith, after_prefix-text_length p s r k)
      | inr e ↦ cc (h, e)
    ]

stripped_of-text_length :
    (t r : String) → stripped_of (some t) ≡ some r → text_length r ≤ text_length t
stripped_of-text_length t r h = elim (Bool-cases (ends_word t)) [
  | inl e ↦
      let q : lstrip t ≡ r = cc (h, e) in
      subst (λ x. text_length x ≤ text_length t) q (lstrip-text_length t)
  | inr e ↦ cc (h, e)
]

strip_first-text_length :
    (ps : List String) (s r : String)
    → All (λ p. 1 ≤ text_length p) ps
    → strip_first ps s ≡ some r
    → text_length r < text_length s
unfolding strip_first
strip_first-text_length [] s r a h = cc
strip_first-text_length (p ∷ ps) s r a h = elim (Option-cases (after_prefix p s)) [
  | inl e ↦ strip_first-text_length ps s r a.1 (cc (h, e))
  | inr (t, e) ↦ elim (Option-cases (stripped_of (some t))) [
    | inl k ↦ strip_first-text_length ps s r a.1 (cc (h, e, k))
    | inr (u, k) ↦
        let q : u ≡ r = cc (h, e, k) in
        subst (λ x. text_length x < text_length s) q
          (omega (arith, a.0, after_prefix-text_length p s t e, stripped_of-text_length t u k))
  ]
]

polite_prefixes-All : All (λ p. 1 ≤ text_length p) polite_prefixes
polite_prefixes-All = ground arith

-- The loop ends at a text in front of which no polite prefix stands, after at most as many rounds
-- as the text has characters.
pub strip_polite_from-end : (s : String) → strip_polite_step (strip_polite_from s) ≡ none
unfolding strip_polite_from strip_polite_step
strip_polite_from-end s =
    rounds_end (strip_first polite_prefixes) text_length
      (λ t r h. strip_first-text_length polite_prefixes t r polite_prefixes-All h) (text_length s) s
      (omega arith)
