-- ===== src/Classifier/Tests.antt =====
-- The classifier at concrete bodies.
use claude_email.Prelude.{true, false, some, [], ◌∷◌, ◌≡◌, refl, rounds}
use claude_email.Classifier.{
  classify_tokens, strip_polite_from, strip_polite_step, has_negated_change, strip_first,
  after_prefix, lstrip,
}

stripped : strip_polite_from "please tell me to fix it" ≡ "fix it"
unfolding strip_polite_from strip_polite_step strip_first after_prefix lstrip rounds
stripped = refl

asks : classify_tokens ("is" ∷ "the" ∷ "update" ∷ "done" ∷ []) ≡ some false
unfolding classify_tokens
asks = refl

denies : classify_tokens ("i" ∷ "did" ∷ "not" ∷ "update" ∷ "it" ∷ []) ≡ some false
unfolding classify_tokens has_negated_change
denies = refl

thanks_but : classify_tokens ("thanks" ∷ "please" ∷ "fix" ∷ "it" ∷ []) ≡ some true
unfolding classify_tokens has_negated_change
thanks_but = refl
