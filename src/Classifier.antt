-- ===== src/Classifier.antt =====
-- src/mutation_classifier.py and src/_verbs.py: does a task body ask for a change. Texts are cut by
-- `strip` and `lower` and read as words by a regular expression: these are arguments.
pub mod Polite
pub mod Decision
mod Tests
use Prim.Native.Char
use Prim.Native.String
use claude_email.Prelude.{
  ℕ, zero, suc, String, Bool, true, false, not, ◌&&◌, ◌||◌, Option, none, some, List, [], ◌∷◌,
  str_eq, any, leb, length, if◌then◌else◌, ◌==◌, text_length, rounds,
}

abbrev pub mutating_verbs : List String
mutating_verbs =
    "implement" ∷ "create" ∷ "fix" ∷ "add" ∷ "build" ∷ "run" ∷ "deploy" ∷ "push" ∷ "merge"
    ∷ "refactor" ∷ "update" ∷ "delete" ∷ "remove" ∷ "rename" ∷ "change" ∷ "commit" ∷ "stash"
    ∷ "rollback" ∷ "revert" ∷ "rebase" ∷ "install" ∷ "configure" ∷ "rewrite" ∷ "drop" ∷ "write"
    ∷ "modify" ∷ "edit" ∷ "patch" ∷ "scaffold" ∷ "generate" ∷ "ship" ∷ "bump" ∷ "upgrade"
    ∷ "migrate" ∷ "regenerate" ∷ "replace" ∷ []

abbrev pub read_only_verbs : List String
read_only_verbs =
    "explain" ∷ "show" ∷ "list" ∷ "describe" ∷ "summarize" ∷ "summarise" ∷ "read" ∷ "inspect"
    ∷ "report" ∷ "audit" ∷ "status" ∷ "tell" ∷ "print" ∷ "display" ∷ "find" ∷ []

abbrev pub question_starters : List String
question_starters =
    "what" ∷ "which" ∷ "how" ∷ "why" ∷ "when" ∷ "where" ∷ "who" ∷ "is" ∷ "are" ∷ "was" ∷ "were"
    ∷ "do" ∷ "does" ∷ "did" ∷ "has" ∷ "have" ∷ "had" ∷ "can" ∷ "could" ∷ "should" ∷ "would" ∷ "will"
    ∷ []

abbrev pub acknowledgments : List String
acknowledgments =
    "received" ∷ "got" ∷ "noted" ∷ "acknowledged" ∷ "understood" ∷ "seen" ∷ "confirmed" ∷ "thanks"
    ∷ "thank" ∷ "thx" ∷ "ty" ∷ "ok" ∷ "okay" ∷ []

abbrev pub no_change_starters : List String
no_change_starters = "no" ∷ "nothing" ∷ "none" ∷ "all" ∷ "fine" ∷ []

abbrev pub change_words : List String
change_words =
    "change" ∷ "changed" ∷ "modify" ∷ "modified" ∷ "update" ∷ "updated" ∷ "edit" ∷ "edited" ∷ []

abbrev pub polite_prefixes : List String
polite_prefixes =
    "could you please" ∷ "would you please" ∷ "can you please" ∷ "please can you"
    ∷ "please could you" ∷ "please would you" ∷ "could you" ∷ "would you" ∷ "can you" ∷ "will you"
    ∷ "tell me to" ∷ "tell me" ∷ "please" ∷ "pls" ∷ []

abbrev pub ack_max_tokens : ℕ
ack_max_tokens = 8

-- `token in words`
abbrev pub is_one_of : List String → String → Bool
is_one_of words token = any (str_eq token) words

-- `s[len(prefix):]` if `s.startswith(prefix)`
unfoldable pub after_prefix : (prefix s : String) → Option String
after_prefix String.[] s = some s
after_prefix (String.◌∷◌ c p) String.[] = none
after_prefix (String.◌∷◌ c p) (String.◌∷◌ d s) =
    let rest = after_prefix p s in if Char.code c == Char.code d then rest else none

abbrev pub is_space_or_comma : ℕ → Bool
is_space_or_comma c = c == 32 || c == 44 || c == 58

-- `s.lstrip(" ,:")`
unfoldable pub lstrip : String → String
lstrip String.[] = String.[]
lstrip (String.◌∷◌ c s) =
    let rest = lstrip s in if is_space_or_comma (Char.code c) then rest else String.◌∷◌ c s

-- `s == prefix or s.startswith(prefix + " ")`, told by what stands behind the prefix
abbrev pub ends_word : String → Bool
ends_word String.[] = true
ends_word (String.◌∷◌ c s) = Char.code c == 32

abbrev pub stripped_of : Option String → Option String
stripped_of none = none
stripped_of (some rest) = if ends_word rest then some (lstrip rest) else none

-- the `for` loop with its break: what is left behind the first prefix that fits
unfoldable pub strip_first : List String → String → Option String
unfolding after_prefix lstrip
strip_first [] s = none
strip_first (p ∷ ps) s =
    let rest = strip_first ps s in
    elim (stripped_of (after_prefix p s)) [ none ↦ rest | some r ↦ some r ]

-- a round of the `while` loop, none where nothing was stripped
unfoldable pub strip_polite_step : String → Option String
unfolding strip_first
strip_polite_step s = strip_first polite_prefixes s

-- Each round shortens the text, so that its length is rounds enough.
unfoldable pub strip_polite_from : String → String
unfolding strip_polite_step
strip_polite_from s = rounds (text_length s) strip_polite_step s

abbrev pub auxiliaries : List String
auxiliaries = "have" ∷ "has" ∷ "had" ∷ "did" ∷ "do" ∷ "does" ∷ []

abbrev pub contracted : List String
contracted = "haven" ∷ "hasn" ∷ "hadn" ∷ "didn" ∷ "don" ∷ "doesn" ∷ []

-- the word and a change word behind it
abbrev pub word_and_change : String → List String → Bool
word_and_change word (a ∷ b ∷ rest) = str_eq a word && is_one_of change_words b
word_and_change word _ = false

-- the body of the loop, at the tokens from `i` on
abbrev pub negates_here : List String → Bool
negates_here [] = false
negates_here (token ∷ rest) =
    word_and_change "not" (token ∷ rest)
    || is_one_of auxiliaries token && word_and_change "not" rest
    || is_one_of contracted token && word_and_change "t" rest

unfoldable pub has_negated_change : List String → Bool
has_negated_change [] = false
has_negated_change (token ∷ rest) = negates_here (token ∷ rest) || has_negated_change rest

abbrev pub is_short : List String → Bool
is_short tokens = leb (length tokens) ack_max_tokens

-- The decision on the tokens, None without one.
unfoldable pub classify_tokens : List String → Option Bool
unfolding has_negated_change
classify_tokens [] = none
classify_tokens (first ∷ rest) =
    let tokens = first ∷ rest in
    if is_one_of mutating_verbs first
    then some true
    else if is_one_of read_only_verbs first || is_one_of question_starters first
    then some false
    else if is_short tokens && has_negated_change tokens
    then some false
    else if any (is_one_of mutating_verbs) tokens
    then some true
    else if is_short tokens && is_one_of no_change_starters first
    then some false
    else if is_short tokens && any (is_one_of acknowledgments) tokens
    then some false
    else some true

-- `prepare` is `body.strip().lower().rstrip(" .!?,;:")`, and `words` is `_tokens`.
module _ (strip : String → String) (prepare : String → String) (words : String → List String) where
  unfoldable pub classify_mutation : String → Option Bool
  unfolding classify_tokens strip_polite_from
  classify_mutation body =
      if str_eq (strip body) ""
      then none
      else classify_tokens (words (strip_polite_from (prepare body)))
