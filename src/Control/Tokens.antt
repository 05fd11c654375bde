-- ===== src/Control/Tokens.antt =====
-- A confirm token works once, in time, and for its project.
use claude_email.Prelude.{
  ℕ, ◌+◌, ◌≡◌, ◌≢◌, String, Bool, false, not, ◌||◌, ◌&&◌, Option, none, some, List, [], ◌∷◌, arith,
  refl, sym, ◌∙◌, ap, Bool-cases, ltb, leb, str_eq, Option-cases, inl, inr,
}
use claude_email.Table.Keys.{row_of, upsert, merged, row_of-upsert, row_of-upsert_ne}
use claude_email.Control.{Token, token_of, issue, pop, consume}

row_of-pop : (token : String) (store : List Token) → row_of token_of token (pop token store) ≡ none
row_of-pop token [] = refl
row_of-pop token (e ∷ es) = ground (arith, row_of-pop token es)

consume_missing :
    (now : ℕ) (project token : String) (store : List Token)
    → row_of token_of token store ≡ none
    → consume now project token store ≡ (false, store)
unfolding consume
consume_missing now project token store h = rw (h, consume) refl

-- Is the item of a token good for the project at a time?
abbrev pub accepted : (now : ℕ) (project_path : String) → Option Token → Bool
accepted now project none = false
accepted now project (some e) = not (not (str_eq e.project project) || leb e.expires_at now)

consume_lem :
    (now : ℕ) (project token : String) (store : List Token)
    → ((consume now project token store).0 ≡ accepted now project (row_of token_of token store))
      × (row_of token_of token (consume now project token store).1 ≡ none)
unfolding consume
consume_lem now project token store = elim (Option-cases (row_of token_of token store)) [
  | inl e ↦ rw (e, consume) (refl, e)
  | inr (t, e) ↦ elim (Bool-cases (not (str_eq t.project project) || leb t.expires_at now)) [
    | inl b ↦ rw (e, consume, b) (refl, row_of-pop token store)
    | inr b ↦ rw (e, consume, b) (refl, row_of-pop token store)
  ]
]

-- Whatever a first attempt to consume a token returned, a later one fails, with any project and at
-- any time, until the token is issued again.
pub consume_twice :
    (now later : ℕ) (project other token : String) (store : List Token)
    → (consume later other token (consume now project token store).1).0 ≡ false
consume_twice now later project other token store =
    let gone = (consume_lem now project token store).1 in
    (consume_lem later other token (consume now project token store).1).0
    ∙ ap (accepted later other) gone

abbrev issued : ℕ → ℕ → String → String → Token
issued now ttl project token = record { token = token; project = project; expires_at = now + ttl }

abbrev reissued : ℕ → ℕ → String → Token → Token
reissued now ttl project e = record e { project = project; expires_at = now + ttl }

in_time :
    (later expiry : ℕ) (same : Bool)
    → not (not same || leb expiry later) ≡ (same && ltb later expiry)
in_time later expiry same = ground arith

accepted-merged :
    (now ttl later : ℕ) (token project path : String) (o : Option Token)
    → accepted later path
        (some (merged token_of (issued now ttl project token) (reissued now ttl project) o))
      ≡ (str_eq project path && ltb later (now + ttl))
accepted-merged now ttl later token project path none =
    in_time later (now + ttl) (str_eq project path)
accepted-merged now ttl later token project path (some e) =
    in_time later (now + ttl) (str_eq project path)

-- A token that has just been issued is accepted exactly for its project and before its time to
-- live is over, and a token of another name is still answered as it was.
pub consume-issue :
    (now ttl later : ℕ) (token project path : String) (store : List Token)
    → let store' = (issue now ttl token project store).1 in
      ((consume later path token store').0 ≡ (str_eq project path && ltb later (now + ttl)))
      × ((other : String)
          → other ≢ token
          → (consume later path other store').0 ≡ (consume later path other store).0)
unfolding issue
consume-issue now ttl later token project path store =
    let fresh = issued now ttl project token in
    let again = reissued now ttl project in
    let stored = row_of-upsert token_of token fresh again store (λ e. refl) refl in
    (
      (consume_lem later path token (upsert token_of token fresh again store)).0
          ∙ ap (accepted later path) stored
          ∙ accepted-merged now ttl later token project path (row_of token_of token store),
      λ other n.
          (consume_lem later path other (upsert token_of token fresh again store)).0
          ∙ ap (accepted later path)
              (row_of-upsert_ne token_of other token fresh again store n (λ e. refl) refl)
          ∙ sym (consume_lem later path other store).0,
    )
