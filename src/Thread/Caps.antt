-- ===== src/Thread/Caps.antt =====
-- The caps of src/email_thread.py: what is left is the longest end of the transcript within both.
use claude_email.Prelude.{
  ℕ, suc, ◌-◌, ◌≤◌, Bool, true, false, List, [], ◌∷◌, ltb, length, ◌≡◌, refl, sym, subst, arith,
  Bool-cases, inl, inr, ◌⊎◌, reverse, text_length, if◌then◌else◌, String, str_eq, eq_iff, rounds,
  ap,
}
use claude_email.Table.{select}
use claude_email.Db.{Db}
use claude_email.Thread.{
  Turn, chars, trim_turns, trim_chars, capped, is_kept, walk, walk_step, resolve_anchor,
  build_email_thread_transcript,
}

-- The first list is an end of the second.
abbrev pub IsEnd : List Turn → List Turn → Type 0
IsEnd ys [] = ys ≡ []
IsEnd ys (x ∷ xs) = (ys ≡ x ∷ xs) ⊎ IsEnd ys xs

IsEnd-refl : (xs : List Turn) → IsEnd xs xs
IsEnd-refl [] = refl
IsEnd-refl (x ∷ xs) = inl refl

IsEnd-trans : (xs ys zs : List Turn) → IsEnd xs ys → IsEnd ys zs → IsEnd xs zs
IsEnd-trans xs ys [] h k = subst (IsEnd xs) k h
IsEnd-trans xs ys (z ∷ zs) h (inl e) = subst (IsEnd xs) e h
IsEnd-trans xs ys (z ∷ zs) h (inr k) = inr (IsEnd-trans xs ys zs h k)

-- An end with the property `Fits` that has every other such end as an end of it.
abbrev pub LongestEnd {κ} : (List Turn → Type κ) → List Turn → List Turn → Type κ
LongestEnd Fits xs r = IsEnd r xs × Fits r × ((ys : List Turn) → IsEnd ys xs → Fits ys → IsEnd ys r)

longest :
    (Fits : List Turn → Type 0) (x : Turn) (xs rest ys : List Turn)
    → (Fits (x ∷ xs) → ⊥)
    → (IsEnd ys xs → Fits ys → IsEnd ys rest)
    → IsEnd ys (x ∷ xs)
    → Fits ys
    → IsEnd ys rest
longest Fits x xs rest ys unfit l (inl e) k = elim (unfit (subst Fits e k)) [ ]
longest Fits x xs rest ys unfit l (inr h) k = l h k

-- One round of a loop that drops the first turn while the test says that not all fit.
LongestEnd-if :
    (Fits : List Turn → Type 0) (drops : Bool) (x : Turn) (xs rest : List Turn)
    → (drops ≡ true → Fits (x ∷ xs) → ⊥)
    → (drops ≡ false → Fits (x ∷ xs))
    → LongestEnd Fits xs rest
    → LongestEnd Fits (x ∷ xs) (if drops then rest else x ∷ xs)
LongestEnd-if Fits true x xs rest unfit fit (e, f, l) =
    (inr e, f, λ ys h k. longest Fits x xs rest ys (unfit refl) (l ys) h k)
LongestEnd-if Fits false x xs rest unfit fit (e, f, l) = (inl refl, fit refl, λ ys h k. h)

trim_turns_lem : (n : ℕ) (xs : List Turn) → LongestEnd (λ ys. length ys ≤ n) xs (trim_turns n xs)
unfolding trim_turns
trim_turns_lem n [] = (refl, omega arith, λ ys h k. h)
trim_turns_lem n (x ∷ xs) =
    LongestEnd-if (λ ys. length ys ≤ n) (ltb n (length (x ∷ xs))) x xs (trim_turns n xs)
      (λ b k. ground arith) (λ b. ground arith) (trim_turns_lem n xs)

trim_chars_lem :
    (n total : ℕ) (xs : List Turn)
    → total ≡ chars xs
    → LongestEnd (λ ys. chars ys ≤ n) xs (trim_chars n total xs)
unfolding trim_chars
trim_chars_lem n total [] h = (refl, omega arith, λ ys h k. h)
trim_chars_lem n total (x ∷ xs) h =
    LongestEnd-if (λ ys. chars ys ≤ n) (ltb n total) x xs
      (trim_chars n (total - text_length x.body) xs) (λ b k. ground arith) (λ b. ground arith)
      (trim_chars_lem n (total - text_length x.body) xs (omega arith))

IsEnd-length : (ys xs : List Turn) → IsEnd ys xs → length ys ≤ length xs
IsEnd-length ys [] h = subst (λ zs. length zs ≤ 0) (sym h) (omega arith)
IsEnd-length ys (x ∷ xs) (inl e) = subst (λ zs. length zs ≤ suc (length xs)) (sym e) (omega arith)
IsEnd-length ys (x ∷ xs) (inr h) = omega (arith, IsEnd-length ys xs h)

-- The caps leave the longest end of the oldest-first kept turns that has at most `turn_cap` turns
-- and at most `char_cap` characters in their bodies.
pub capped_lem :
    (char_cap turn_cap : ℕ) (chain : List Turn)
    → LongestEnd
        (λ ys. (length ys ≤ turn_cap) × (chars ys ≤ char_cap))
        (reverse (select is_kept chain))
        (capped char_cap turn_cap chain)
unfolding capped
capped_lem char_cap turn_cap chain =
    let all = reverse (select is_kept chain) in
    let some_turns = trim_turns turn_cap all in
    let (e, f, l) = trim_turns_lem turn_cap all in
    let (e', f', l') = trim_chars_lem char_cap (chars some_turns) some_turns refl in
    let kept = trim_chars char_cap (chars some_turns) some_turns in
    (
      IsEnd-trans kept some_turns all e' e,
      (omega (arith, f, IsEnd-length kept some_turns e'), f'),
      λ ys h k. l' ys (l ys h k.0) k.1,
    )

walk-none : (db : Db) → (walk db "").chain ≡ []
unfolding walk walk_step rounds
walk-none db = refl

-- The transcript of a mail is the longest end of the walk's turns without the acknowledgements and
-- status mails, the oldest first, that keeps both caps: the newest turns, at most `turn_cap`, with
-- at most `char_cap` characters in their bodies. Without a known mail to start from it is empty.
pub build_email_thread_transcript_lem :
    (split : String → List String) (db : Db) (parent_eid references : String)
    (char_cap turn_cap : ℕ)
    → let anchor = resolve_anchor split db parent_eid references in
      LongestEnd
        (λ ys. (length ys ≤ turn_cap) × (chars ys ≤ char_cap))
        (reverse (select is_kept (walk db anchor).chain))
        (build_email_thread_transcript split db parent_eid references char_cap turn_cap)
unfolding build_email_thread_transcript
build_email_thread_transcript_lem split db parent_eid references char_cap turn_cap =
    let anchor = resolve_anchor split db parent_eid references in
    elim (Bool-cases (str_eq anchor "")) [
      | inl e ↦
          let q : anchor ≡ "" = (eq_iff anchor "").0 e in
          rw (e, ap (λ a. (walk db a).chain) q, walk-none db)
            (refl, (omega arith, omega arith), λ ys h k. h)
      | inr e ↦ rw (e) (capped_lem char_cap turn_cap (walk db anchor).chain)
    ]
