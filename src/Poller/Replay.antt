-- ===== src/Poller/Replay.antt =====
-- A Message-ID that was processed keeps its mail away until as many others as the cap came after it.
use claude_email.Prelude.{
  ℕ, suc, ◌+◌, ◌≤◌, ◌<◌, String, true, false, not, ◌&&◌, List, [], ◌∷◌, ◌++◌, map, ◌≡◌, ◌≢◌, refl,
  str_eq, ltb, length, length-append, arith, eq_iff, eq_refl, ap, subst, Bool-cases, inl, inr, All,
}
use mathlib.Core.List.{append_assoc, map-append}
use claude_email.Poller.{
  has_id, add_key, Fetched, trim, mark_processed, mark_all, is_new, fetch_unseen, max_processed_ids,
  process_messages,
}

-- The id is among those that were processed, with at most `n` behind it.
abbrev pub Behind : (n : ℕ) (x : String) → List String → Type 0
Behind n x processed =
    (before : List String) × (after : List String) × (processed ≡ before ++ x ∷ after)
    × (length after ≤ n)

Behind-le :
    (n m : ℕ) (x : String) (processed : List String)
    → n ≤ m
    → Behind n x processed
    → Behind m x processed
Behind-le n m x processed l (before, after, e, h) = (before, after, e, omega arith)

module _ (max_ids : ℕ) where
  trim-Behind :
      (n : ℕ) (x : String) (before after : List String)
      → length after ≤ n
      → n < max_ids
      → Behind n x (trim max_ids (before ++ x ∷ after))
  unfolding trim
  trim-Behind n x [] after h k = ([], after, ground arith, h)
  trim-Behind n x (b ∷ before) after h k =
      elim (Bool-cases (ltb max_ids (length (b ∷ before ++ x ∷ after)))) [
        | inl e ↦ rw e (trim-Behind n x before after h k)
        | inr e ↦ rw e (b ∷ before, after, refl, h)
      ]

  mark_processed-Behind :
      (n : ℕ) (x y : String) (processed : List String)
      → Behind n x processed
      → suc n < max_ids
      → Behind (suc n) x (mark_processed max_ids y processed)
  unfolding mark_processed
  mark_processed-Behind n x y processed (before, after, e, h) k = elim (Bool-cases (str_eq y "")) [
    | inl empty ↦
        rw (empty, mark_processed)
          (Behind-le n (suc n) x processed (omega arith) (before, after, e, h))
    | inr given ↦ elim (Bool-cases (has_id processed y)) [
      | inl old ↦
          rw (given, mark_processed, old)
            (rw e (
              Behind-le n (suc n) x _ (omega arith) (trim-Behind n x before after h (omega arith))))
      | inr new ↦
          rw (given, mark_processed, new)
            (rw (e, append_assoc)
              (trim-Behind (suc n) x before (after ++ y ∷ [])
                (omega (arith, length-append after (y ∷ []))) k))
    ]
  ]

  mark_all-Behind :
      (n : ℕ) (x : String) (later processed : List String)
      → Behind n x processed
      → n + length later < max_ids
      → Behind (n + length later) x (mark_all max_ids later processed)
  unfolding mark_all
  mark_all-Behind n x [] processed b k = Behind-le n (n + 0) x processed (omega arith) b
  mark_all-Behind n x (m ∷ later) processed b k =
      Behind-le (suc n + length later) (n + suc (length later)) x
        (mark_all max_ids later (mark_processed max_ids m processed)) (omega arith)
        (mark_all-Behind (suc n) x later (mark_processed max_ids m processed)
          (mark_processed-Behind n x m processed b (omega arith)) (omega arith))

  mark_processed-new :
      (x : String) (processed : List String)
      → str_eq x "" ≡ false
      → has_id processed x ≡ false
      → 0 < max_ids
      → Behind 0 x (mark_processed max_ids x processed)
  unfolding mark_processed
  mark_processed-new x processed given new k =
      rw (given, mark_processed, new) (trim-Behind 0 x processed [] (omega arith) k)

  mark_all-append :
      (ms ns processed : List String)
      → mark_all max_ids (ms ++ ns) processed ≡ mark_all max_ids ns (mark_all max_ids ms processed)
  unfolding mark_all
  mark_all-append [] ns processed = refl
  mark_all-append (m ∷ ms) ns processed = mark_all-append ms ns (mark_processed max_ids m processed)

  -- No more than the cap is kept.
  trim-length : (processed : List String) → length (trim max_ids processed) ≤ max_ids
  unfolding trim
  trim-length [] = omega arith
  trim-length (p ∷ processed) = ground (arith, trim-length processed)

has_id-Behind :
    (n : ℕ) (x : String) (processed : List String)
    → Behind n x processed
    → has_id processed x ≡ true
has_id-Behind n x processed (before, after, e, h) = rw e (go before)
  where
    go : (before : List String) → has_id (before ++ x ∷ after) x ≡ true
    go [] = ground (arith, eq_refl x)
    go (b ∷ before) = ground (arith, go before)

fetch_unseen-known :
    {Message : Type 0} (x : String) (processed : List String) (answers : List (Fetched Message))
    → str_eq x "" ≡ false
    → has_id processed x ≡ true
    → All (λ m. m.message_id ≢ x) (fetch_unseen processed answers)
unfolding fetch_unseen
fetch_unseen-known x processed [] given h = tt
fetch_unseen-known x processed (m ∷ answers) given h = elim (Bool-cases (is_new processed m)) [
  | inl new ↦ rw new (
    (λ e.
        let old = subst (λ i. not (not (str_eq i "") && has_id processed i) ≡ true) e new in
        ground (arith, old, given, h)),
    fetch_unseen-known x processed answers given h,
  )
  | inr old ↦ rw old (fetch_unseen-known x processed answers given h)
]

fetch_unseen-processed :
    {Message : Type 0} (x : String) (before after processed : List String)
    (answers : List (Fetched Message))
    → x ≢ ""
    → has_id (mark_all max_processed_ids before processed) x ≡ false
    → length after < max_processed_ids
    → All
        (λ m. m.message_id ≢ x)
        (fetch_unseen (mark_all max_processed_ids (before ++ x ∷ after) processed) answers)
unfolding mark_all
fetch_unseen-processed x before after processed answers given new few =
    let known = mark_all max_processed_ids before processed in
    let some_id : str_eq x "" ≡ false = ground (arith, eq_iff x "") in
    rw (mark_all-append max_processed_ids before (x ∷ after) processed) (
      fetch_unseen-known x (mark_all max_processed_ids (x ∷ after) known) answers some_id (
        has_id-Behind (0 + length after) x (mark_all max_processed_ids (x ∷ after) known) (
          mark_all-Behind max_processed_ids 0 x after (mark_processed max_processed_ids x known)
            (mark_processed-new max_processed_ids x known some_id new (omega arith))
            (omega arith))))

-- Whatever ids are marked, the poller keeps at most 10,000 of them, given that it began so.
pub mark_all-length :
    (ms processed : List String)
    → length processed ≤ max_processed_ids
    → length (mark_all max_processed_ids ms processed) ≤ max_processed_ids
unfolding mark_all mark_processed
mark_all-length [] processed h = h
mark_all-length (m ∷ ms) processed h =
    mark_all-length ms (mark_processed max_processed_ids m processed)
      (ground (arith, trim-length max_processed_ids (add_key m processed)))

-- What a poll marks, where no signal ends it: the ids of its mails in their order, whether or not
-- `dispatch` raised.
pub process_messages-mark_all :
    {Message State : Type 0} (max_ids : ℕ) (dispatch : Message → State → State)
    (ms : List (Fetched Message)) (s : State) (processed : List String)
    → (process_messages max_ids dispatch (λ s. false) ms (s, processed)).1
      ≡ mark_all max_ids (map (λ m. m.message_id) ms) processed
unfolding process_messages mark_all
process_messages-mark_all max_ids dispatch [] s processed = refl
process_messages-mark_all max_ids dispatch (m ∷ ms) s processed =
    process_messages-mark_all max_ids dispatch ms (dispatch m.message s)
      (mark_processed max_ids m.message_id processed)

length-map : {A B : Type 0} (f : A → B) (xs : List A) → length (map f xs) ≡ length xs
length-map f [] = refl
length-map f (x ∷ xs) = ap suc (length-map f xs)

-- A mail with a Message-ID that no mail before it had, in this poll or as far back as the poller
-- remembers, is fetched no more once it was processed, whether or not `dispatch` raised, and however
-- often the server answers with it, while fewer mails than the cap of 10,000 are processed after it.
pub process_messages-fetch_unseen :
    {Message State : Type 0} (dispatch : Message → State → State) (before : List (Fetched Message))
    (m : Fetched Message) (after : List (Fetched Message)) (s : State) (processed : List String)
    (answers : List (Fetched Message))
    → m.message_id ≢ ""
    → has_id
        (process_messages max_processed_ids dispatch (λ s. false) before (s, processed)).1
        m.message_id
      ≡ false
    → length after < max_processed_ids
    → All
        (λ a. a.message_id ≢ m.message_id)
        (fetch_unseen
          (process_messages max_processed_ids dispatch
            (λ s. false)
            (before ++ m ∷ after)
            (s, processed)).1
          answers)
process_messages-fetch_unseen dispatch before m after s processed answers given new few =
    let id_of = λ (a : Fetched _). a.message_id in
    rw
      (
        process_messages-mark_all max_processed_ids dispatch (before ++ m ∷ after) s processed,
        map-append,
      )
      (fetch_unseen-processed m.message_id (map id_of before) (map id_of after) processed answers
        given (rw process_messages-mark_all at new) (rw (length-map id_of after) few))
