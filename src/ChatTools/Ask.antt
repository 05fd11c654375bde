-- ===== src/ChatTools/Ask.antt =====
-- A question to the user, and the wait for its answer.
use native.Mathlib.Nat.{suc-mul}
use claude_email.Prelude.{
  ℕ, zero, suc, ◌+◌, ◌*◌, ◌≤◌, ◌<◌, ◌≡◌, String, false, Option, none, some, arith, refl, ◌∙◌, ap,
  ltb, lt→ltb, inl, inr, Bool-cases, Option-cases,
}
use claude_email.Json.{Json}
use claude_email.Effect.{Result, ok, raise}
use claude_email.Db.{Db, Message}
use claude_email.Bus.{get_reply_to_message, insert_message}
use claude_email.Status.{emit_status}
use claude_email.ChatTools.{Asked, reply, clear_dedup, post_question, await_reply, ask_user}

at : (a i t : ℕ) → a + zero * i < t → a < t
at a i t l = omega (arith, l)

after : (a k i t : ℕ) → a + suc k * i < t → a + i + k * i < t
after a k i t l = omega (arith, l, suc-mul k i)

before : (a k i t : ℕ) → a + suc k * i < t → a < t
before a k i t l = omega (arith, after a k i t l)

no_lt : (a t : ℕ) → t ≤ a → ltb a t ≡ false
no_lt a t h = ground (arith, h)

rounds_le : (k i : ℕ) → 1 ≤ i → k ≤ k * i
rounds_le zero i h = omega arith
rounds_le (suc k) i h = omega (arith, suc-mul k i, rounds_le k i h, h)

module _ (others : ℕ → Db → Db) (poll_interval timeout : ℕ) where
  -- The store at a poll, from what it is at the poll number `first` on.
  abbrev pub at_poll : (first : ℕ) → Db → (later : ℕ) → Db
  at_poll first db zero = db
  at_poll first db (suc k) = at_poll (suc first) (others first db) k

  -- The reply is on the bus at the last of some polls, and not at those before it.
  abbrev pub Replied : (first : ℕ) (msg_id : ℕ) → Db → (later : ℕ) → Message → Type 0
  Replied first n db zero m = get_reply_to_message n db ≡ some m
  Replied first n db (suc k) m =
      (get_reply_to_message n db ≡ none) × Replied (suc first) n (others first db) k m

  await_reply-Replied :
      (fuel first elapsed n k : ℕ) (task_id : Option ℕ) (db : Db) (m : Message)
      → elapsed + k * poll_interval < timeout
      → k < fuel
      → Replied first n db k m
      → await_reply others poll_interval timeout fuel first elapsed n task_id db
        ≡ (reply m.body, clear_dedup task_id (at_poll first db k))
  unfolding await_reply
  await_reply-Replied zero first elapsed n k task_id db m l f r =
      let bad : ⊥ = omega (arith, f) in elim bad [ ]
  await_reply-Replied (suc fuel) first elapsed n zero task_id db m l f r =
      rw (lt→ltb elapsed timeout (at elapsed poll_interval timeout l), r, await_reply) refl
  await_reply-Replied (suc fuel) first elapsed n (suc k) task_id db m l f r =
      rw (lt→ltb elapsed timeout (before elapsed k poll_interval timeout l), r.0, await_reply)
        (await_reply-Replied fuel (suc first) (elapsed + poll_interval) n k task_id
          (others first db) m (after elapsed k poll_interval timeout l) (omega (arith, f)) r.1)

  -- The rounds of `ask_user` are enough: one more would change nothing.
  await_reply-enough :
      (fuel first elapsed n : ℕ) (task_id : Option ℕ) (db : Db)
      → 1 ≤ poll_interval
      → timeout ≤ elapsed + fuel
      → await_reply others poll_interval timeout (suc fuel) first elapsed n task_id db
        ≡ await_reply others poll_interval timeout fuel first elapsed n task_id db
  unfolding await_reply
  await_reply-enough zero first elapsed n task_id db i h =
      rw (no_lt elapsed timeout (omega (arith, h)), await_reply) refl
  await_reply-enough (suc fuel) first elapsed n task_id db i h =
      elim (Bool-cases (ltb elapsed timeout)) [
        | inr b ↦ rw (b, await_reply) refl
        | inl b ↦ elim (Option-cases (get_reply_to_message n db)) [
          | inr (m, e) ↦ rw (b, e, await_reply) refl
          | inl e ↦
              rw (b, e, await_reply)
                (await_reply-enough fuel (suc first) (elapsed + poll_interval) n task_id
                  (others first db) i (omega (arith, i, h)))
        ]
      ]

  -- what follows the question
  abbrev answered : Option ℕ → Result (Message × Db) → Result (Asked × Db)
  answered task_id (ok (m, db)) =
      ok (await_reply others poll_interval timeout timeout 0 0 m.id task_id db)
  answered task_id (raise e) = raise e

  -- If a question is on the bus, and a reply to it is first there at a poll before the time is over,
  -- whatever others do to the store in between, then `ask_user` returns the body of that reply, and
  -- leaves the store as it is then, but for the task's status, which may be sent again.
  pub ask_user-Replied :
      (dumps : Json → String) (path_name : String → String) (clock : String)
      (strip : String → String) (now : ℕ) (caller message : String) (task_id : Option ℕ)
      (replies : Json) (db asked : Db) (question m : Message) (k : ℕ)
      → 1 ≤ poll_interval
      → k * poll_interval < timeout
      → post_question dumps path_name clock strip now caller message task_id replies db
        ≡ ok (question, asked)
      → Replied 0 question.id asked k m
      → ask_user others poll_interval timeout dumps path_name clock strip now caller message task_id
          replies db
        ≡ ok (reply m.body, clear_dedup task_id (at_poll 0 asked k))
  unfolding ask_user
  ask_user-Replied dumps path_name clock strip now caller message task_id replies db asked question
        m k i l e r =
      let waited =
        await_reply-Replied timeout 0 0 question.id k task_id asked m (omega (arith, l))
          (omega (arith, rounds_le k poll_interval i, l)) r in
      ap (answered task_id) e ∙ ap (λ a. ok a) waited

module _ (dumps : Json → String) (path_name : String → String) (clock : String)
    (strip : String → String) where
  -- The question goes on the bus, where the database takes every transaction.
  pub post_question-ok :
      (now : ℕ) (caller message : String) (task_id : Option ℕ) (replies : Json) (db : Db)
      → (m : Message) × (asked : Db) × (post_question dumps path_name clock strip now caller message
            task_id replies db
          ≡ ok (m, asked))
        × (m.to_name ≡ "user")
        × (m.type ≡ "ask")
  unfolding post_question emit_status insert_message
  post_question-ok now caller message none replies db = (_, _, refl, refl, refl)
  post_question-ok now caller message (some n) replies db = (_, _, refl, refl, refl)
