-- ===== src/Thread/Links.antt =====
-- The walk of src/email_thread.py: it ends, and it follows the parent links without a repetition.
use claude_email.Prelude.{
  ℕ, ◌-◌, ◌≤◌, ◌<◌, String, true, false, none, some, List, [], ◌∷◌, ◌++◌, str_eq, length, any,
  rounds_end, rounds_keeps, ◌≡◌, refl, arith, length-append, Bool-cases, Option-cases, inl, inr,
  eq_iff,
}
use claude_email.Db.{Db}
use claude_email.Thread.{
  Turn, Walk, fetch_turn, visit, goes_on, walk_step, walk_start, walk, max_walk_depth,
}

-- No id stands twice in the list.
abbrev pub Unique : List String → Type 0
Unique [] = Unit
Unique (x ∷ xs) = (any (str_eq x) xs ≡ false) × Unique xs

-- The turns are those that the store has for the ids, and the ids follow the parent links of the
-- turns, from the given id on.
abbrev pub Linked : Db → String → List String → List Turn → Type 0
Linked db eid [] [] = Unit
Linked db eid (x ∷ xs) (t ∷ ts) =
    (x ≡ eid) × (fetch_turn x db ≡ some t) × Linked db t.parent_eid xs ts
Linked db eid _ _ = ⊥

-- the id that the last turn's link leads to
abbrev pub after : String → List Turn → String
after eid [] = eid
after eid (t ∷ ts) = after t.parent_eid ts

any-snoc :
    (x y : String) (xs : List String)
    → any (str_eq x) xs ≡ false
    → str_eq x y ≡ false
    → any (str_eq x) (xs ++ y ∷ []) ≡ false
any-snoc x y [] h k = ground arith
any-snoc x y (z ∷ xs) h k = ground (arith, any-snoc x y xs)

Unique-snoc :
    (x : String) (xs : List String) → Unique xs → any (str_eq x) xs ≡ false → Unique (xs ++ x ∷ [])
Unique-snoc x [] u h = (refl, tt)
Unique-snoc x (y ∷ ys) u h = (
  any-snoc y x ys u.0 (ground (arith, eq_iff x y, eq_iff y x)),
  Unique-snoc x ys u.1 (ground arith),
)

Linked-snoc :
    (db : Db) (eid : String) (ids : List String) (ts : List Turn) (t : Turn)
    → Linked db eid ids ts
    → fetch_turn (after eid ts) db ≡ some t
    → Linked db eid (ids ++ after eid ts ∷ []) (ts ++ t ∷ [])
Linked-snoc db eid [] [] t h e = (refl, e, tt)
Linked-snoc db eid [] (s ∷ ss) t h e = elim h [ ]
Linked-snoc db eid (x ∷ xs) [] t h e = elim h [ ]
Linked-snoc db eid (x ∷ xs) (s ∷ ss) t h e = (h.0, h.1, Linked-snoc db s.parent_eid xs ss t h.2 e)

after-snoc : (eid : String) (ts : List Turn) (t : Turn) → after eid (ts ++ t ∷ []) ≡ t.parent_eid
after-snoc eid [] t = refl
after-snoc eid (s ∷ ss) t = after-snoc s.parent_eid ss t

-- A round that is not the last visits the current mail.
walk_step_lem :
    (db : Db) (w w' : Walk)
    → walk_step db w ≡ some w'
    → (t : Turn) × (goes_on w ≡ true) × (fetch_turn w.cur db ≡ some t) × (w' ≡ visit w t)
unfolding walk_step
walk_step_lem db w w' h = elim (Bool-cases (goes_on w)) [
  | inl g ↦ elim (Option-cases (fetch_turn w.cur db)) [
    | inl e ↦ cc (h, g, e)
    | inr (t, e) ↦ (t, g, e, cc (h, g, e))
  ]
  | inr g ↦ cc (h, g)
]

goes_on_lem :
    (w : Walk)
    → goes_on w ≡ true
    → (any (str_eq w.cur) w.seen ≡ false) × (length w.chain < max_walk_depth)
goes_on_lem w g = (ground (arith), ground (arith))

left : Walk → ℕ
left w = max_walk_depth - length w.chain

walk_step-left : (db : Db) (w w' : Walk) → walk_step db w ≡ some w' → left w' < left w
unfolding left
walk_step-left db w w' h =
    let (t, g, e, q) = walk_step_lem db w w' h in
    let (_, room) = goes_on_lem w g in rw (q) (omega (arith, room, length-append w.chain (t ∷ [])))

-- The walk up a thread ends by its own condition or at an unknown mail, whatever circles the parent
-- links make, and never because the rounds are used up.
pub walk_ends : (db : Db) (anchor : String) → walk_step db (walk db anchor) ≡ none
unfolding walk left
walk_ends db anchor =
    rounds_end (walk_step db) left (walk_step-left db) max_walk_depth (walk_start anchor)
      (omega arith)

-- The turns of the walk so far are what its ids fetch.
abbrev pub IsTrail : Db → String → Walk → Type 0
IsTrail db anchor w =
    Unique w.seen
    × Linked db anchor w.seen w.chain
    × (after anchor w.chain ≡ w.cur)
    × (length w.chain ≤ max_walk_depth)

walk_step-IsTrail :
    (db : Db) (anchor : String) (w w' : Walk)
    → walk_step db w ≡ some w'
    → IsTrail db anchor w
    → IsTrail db anchor w'
walk_step-IsTrail db anchor w w' h (u, l, a, n) =
    let (t, g, e, q) = walk_step_lem db w w' h in
    let (new, room) = goes_on_lem w g in
    rw (q) (
      Unique-snoc w.cur w.seen u new,
      rw (← a) (Linked-snoc db anchor w.seen w.chain t l (rw (a) e)),
      after-snoc anchor w.chain t,
      omega (arith, room, length-append w.chain (t ∷ [])),
    )

-- The walk from an anchor visits no id twice and at most 200, the anchor first and then always the
-- parent of the turn before, and gathers the turn that the store has for each.
pub walk-IsTrail : (db : Db) (anchor : String) → IsTrail db anchor (walk db anchor)
unfolding walk
walk-IsTrail db anchor =
    rounds_keeps (IsTrail db anchor) (walk_step db) (walk_step-IsTrail db anchor) max_walk_depth
      (walk_start anchor) (tt, tt, refl, omega arith)
