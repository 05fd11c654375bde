-- ===== src/Classifier/Decision.antt =====
-- What a decision of the classifier says about the words.
use claude_email.Prelude.{
  String, Bool, true, false, ◌&&◌, ◌||◌, some, List, ◌∷◌, any, ◌≡◌, arith, ◌⊎◌, ◌↔◌, if◌then◌else◌,
}
use claude_email.Classifier.{
  mutating_verbs, read_only_verbs, question_starters, acknowledgments, no_change_starters,
  is_one_of, is_short, has_negated_change, classify_tokens,
}

-- The words that keep a task from changing anything.
abbrev pub ReadsOnly : String → List String → Type 0
ReadsOnly first rest =
    ((is_one_of read_only_verbs first || is_one_of question_starters first) ≡ true)
    ⊎ ((is_short (first ∷ rest) ≡ true)
        × ((has_negated_change (first ∷ rest) ≡ true)
            ⊎ ((any (is_one_of mutating_verbs) (first ∷ rest) ≡ false)
                × ((is_one_of no_change_starters first ≡ true)
                    ⊎ (any (is_one_of acknowledgments) (first ∷ rest) ≡ true)))))

-- The chain of the tests, whatever they are.
decision :
    (m r s n a c k : Bool)
    → ((if m
          then some true
          else if r
          then some false
          else if s && n
          then some false
          else if a
          then some true
          else if s && c
          then some false
          else if s && k
          then some false
          else some true)
        ≡ some false)
      ↔ ((m ≡ false)
          × ((r ≡ true) ⊎ ((s ≡ true) × ((n ≡ true) ⊎ ((a ≡ false) × ((c ≡ true) ⊎ (k ≡ true)))))))
decision m r s n a c k = ground arith

-- A body is taken to change nothing exactly if its first word is no mutating verb, and it starts
-- with a verb that reads or asks, or is short and denies a change, or is short, has no mutating verb
-- and starts with a denial or has an acknowledgment.
pub classify_tokens-false :
    (first : String) (rest : List String)
    → (classify_tokens (first ∷ rest) ≡ some false)
      ↔ ((is_one_of mutating_verbs first ≡ false) × ReadsOnly first rest)
unfolding classify_tokens
classify_tokens-false first rest =
    decision (is_one_of mutating_verbs first)
      (is_one_of read_only_verbs first || is_one_of question_starters first)
      (is_short (first ∷ rest)) (has_negated_change (first ∷ rest))
      (any (is_one_of mutating_verbs) (first ∷ rest)) (is_one_of no_change_starters first)
      (any (is_one_of acknowledgments) (first ∷ rest))
