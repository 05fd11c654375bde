-- ===== src/Table/Ids.antt =====
-- A column of unique ids: they ascend below the next AUTOINCREMENT value, so an id names at most
-- one row.
use claude_email.Prelude.{
  ℕ, suc, ◌+◌, ◌≤◌, ◌<◌, ◌≡◌, inl, inr, Bool, List, [], ◌∷◌, ◌++◌, arith, refl, In, ◌==◌, leb, map,
  Bool-cases,
}
use claude_email.Table.{update, count_by, select, insert_by, order_by}

module _ {A : Type 0} (key : A → ℕ) where
  -- The ids of the rows ascend, from `lo` on and below `hi`.
  abbrev pub Ascending : ℕ → List A → ℕ → Type 0
  Ascending lo [] hi = lo ≤ hi
  Ascending lo (t ∷ ts) hi = (lo ≤ key t) × Ascending (suc (key t)) ts hi

  pub Ascending-append :
      (lo : ℕ) (rows : List A) (hi : ℕ) (t : A)
      → Ascending lo rows hi
      → key t ≡ hi
      → Ascending lo (rows ++ t ∷ []) (hi + 1)
  Ascending-append lo [] hi t h e = omega arith
  Ascending-append lo (r ∷ rows) hi t h e = (h.0, Ascending-append (suc (key r)) rows hi t h.1 e)

  pub Ascending-update :
      (lo : ℕ) (rows : List A) (hi : ℕ) (p : A → Bool) (f : A → A)
      → ((t : A) → key (f t) ≡ key t)
      → Ascending lo rows hi
      → Ascending lo (update p f rows) hi
  Ascending-update lo [] hi p f same h = h
  Ascending-update lo (r ∷ rows) hi p f same h =
      ground (arith, same r, Ascending-update (suc (key r)) rows hi p f same h.1)

  pub Ascending-le : (lo : ℕ) (rows : List A) (hi : ℕ) → Ascending lo rows hi → lo ≤ hi
  Ascending-le lo [] hi h = h
  Ascending-le lo (r ∷ rows) hi h = omega (arith, Ascending-le (suc (key r)) rows hi h.1)

  pub Ascending-In_bounds :
      (lo : ℕ) (rows : List A) (hi : ℕ) (t : A)
      → Ascending lo rows hi
      → In t rows
      → (lo ≤ key t) × (key t < hi)
  Ascending-In_bounds lo [] hi t h m = elim m [ ]
  Ascending-In_bounds lo (r ∷ rows) hi t h (inl e) =
      rw e (h.0, Ascending-le (suc (key r)) rows hi h.1)
  Ascending-In_bounds lo (r ∷ rows) hi t h (inr m) =
      omega (arith, Ascending-In_bounds (suc (key r)) rows hi t h.1 m)

  -- Two rows of one id are one row.
  pub Ascending-unique :
      (lo : ℕ) (rows : List A) (hi : ℕ) (t u : A)
      → Ascending lo rows hi
      → In t rows
      → In u rows
      → key t ≡ key u
      → t ≡ u
  Ascending-unique lo [] hi t u h m n e = elim m [ ]
  Ascending-unique lo (r ∷ rows) hi t u h m n e = ground (
    arith,
    Ascending-unique (suc (key r)) rows hi t u h.1,
    Ascending-In_bounds (suc (key r)) rows hi t h.1,
    Ascending-In_bounds (suc (key r)) rows hi u h.1,
  )

  count_by-has_id_below :
      (lo : ℕ) (rows : List A) (hi n : ℕ)
      → Ascending lo rows hi
      → n < lo
      → count_by (λ r. key r == n) rows ≡ 0
  count_by-has_id_below lo [] hi n h l = refl
  count_by-has_id_below lo (r ∷ rows) hi n h l =
      ground (arith, count_by-has_id_below (suc (key r)) rows hi n h.1)

  pub count_by-has_id :
      (lo : ℕ) (rows : List A) (hi n : ℕ)
      → Ascending lo rows hi
      → count_by (λ r. key r == n) rows ≤ 1
  count_by-has_id lo [] hi n h = omega arith
  count_by-has_id lo (r ∷ rows) hi n h = ground (
    arith,
    count_by-has_id (suc (key r)) rows hi n h.1,
    count_by-has_id_below (suc (key r)) rows hi n h.1,
  )

  select-has_id_below :
      (lo : ℕ) (rows : List A) (hi n : ℕ)
      → Ascending lo rows hi
      → n < lo
      → select (λ r. key r == n) rows ≡ []
  select-has_id_below lo [] hi n h l = refl
  select-has_id_below lo (r ∷ rows) hi n h l =
      ground (arith, select-has_id_below (suc (key r)) rows hi n h.1)

  -- A row is what a lookup of its id selects.
  pub select-has_id :
      (lo : ℕ) (rows : List A) (hi : ℕ) (t : A)
      → Ascending lo rows hi
      → In t rows
      → select (λ r. key r == key t) rows ≡ t ∷ []
  select-has_id lo [] hi t h m = elim m [ ]
  select-has_id lo (r ∷ rows) hi t h m = ground (
    arith,
    select-has_id (suc (key r)) rows hi t h.1,
    select-has_id_below (suc (key r)) rows hi (key t) h.1,
    Ascending-In_bounds (suc (key r)) rows hi t h.1,
  )

  insert_by_least :
      (x : A) (lo : ℕ) (ys : List A) (hi : ℕ)
      → Ascending lo ys hi
      → key x < lo
      → insert_by (λ a b. leb (key a) (key b)) x ys ≡ x ∷ ys
  insert_by_least x lo [] hi h l = refl
  insert_by_least x lo (y ∷ ys) hi h l = ground arith

  Ascending-weaken :
      (lo lo' : ℕ) (rows : List A) (hi : ℕ)
      → lo' ≤ lo
      → Ascending lo rows hi
      → Ascending lo' rows hi
  Ascending-weaken lo lo' [] hi l h = omega arith
  Ascending-weaken lo lo' (r ∷ rows) hi l h = (omega arith, h.1)

  pub Ascending-select :
      (lo : ℕ) (rows : List A) (hi : ℕ) (p : A → Bool)
      → Ascending lo rows hi
      → Ascending lo (select p rows) hi
  Ascending-select lo [] hi p h = h
  Ascending-select lo (r ∷ rows) hi p h = elim (Bool-cases (p r)) [
    | inl e ↦ rw e (h.0, Ascending-select (suc (key r)) rows hi p h.1)
    | inr e ↦ rw e (
        Ascending-select lo rows hi p (Ascending-weaken (suc (key r)) lo rows hi (omega arith) h.1))
  ]

  -- ORDER BY id changes nothing where the ids ascend.
  pub order_by-Ascending :
      (lo : ℕ) (rows : List A) (hi : ℕ)
      → Ascending lo rows hi
      → order_by (λ a b. leb (key a) (key b)) rows ≡ rows
  order_by-Ascending lo [] hi h = refl
  order_by-Ascending lo (r ∷ rows) hi h =
      rw (order_by-Ascending (suc (key r)) rows hi h.1)
        (insert_by_least r (suc (key r)) rows hi h.1 (omega arith))

  pub Ascending-map :
      (lo : ℕ) (rows : List A) (hi : ℕ) (f : A → A)
      → ((t : A) → key (f t) ≡ key t)
      → Ascending lo rows hi
      → Ascending lo (map f rows) hi
  Ascending-map lo [] hi f same h = h
  Ascending-map lo (r ∷ rows) hi f same h =
      ground (arith, same r, Ascending-map (suc (key r)) rows hi f same h.1)
