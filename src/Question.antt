-- ===== src/Question.antt =====
-- src/question_classifier.py: is a mail's command a plain question. The regular expressions and the
-- methods of texts are those of the `Library`.
use Prim.Native.Char
use claude_email.Prelude.{
  String, Bool, true, false, Option, none, some, List, [], ◌∷◌, ◌++◌, str_eq, any, if◌then◌else◌,
  ◌==◌,
}
use claude_email.Classifier.{mutating_verbs, is_one_of}
use claude_email.Mime.{Library}

abbrev pub imperatives : List String
imperatives = mutating_verbs ++ "audit" ∷ "analyze" ∷ "review" ∷ "cancel" ∷ "reset" ∷ []

-- `text.endswith("?")`
abbrev pub asks : String → Bool
asks String.[] = false
asks (String.◌∷◌ c String.[]) = Char.code c == b'?'
asks (String.◌∷◌ c (String.◌∷◌ d s)) = asks (String.◌∷◌ d s)

-- `words[:3]`
abbrev pub first_three : List String → List String
first_three (a ∷ b ∷ c ∷ rest) = a ∷ b ∷ c ∷ []
first_three words = words

abbrev pub is_directive : Option String → Bool
is_directive none = false
is_directive (some verb) = is_one_of imperatives verb

module _ (lib : Library) where
  unfoldable pub looks_like_question : (body : String) → Bool
  looks_like_question body =
      let s = lib.strip body in
      let s_lower = lib.lower s in
      if str_eq s ""
      then false
      else if is_directive (lib.directive s_lower)
      then false
      else if lib.interrogative s
      then true
      else if any (is_one_of imperatives) (first_three (lib.split s_lower))
      then false
      else asks (lib.rstrip_end s)
