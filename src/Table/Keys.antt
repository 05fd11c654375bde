-- ===== src/Table/Keys.antt =====
-- Rows with a primary key that is a text: the row of a key, and an upsert.
use mathlib.Core.Option
use claude_email.Prelude.{
  ◌≡◌, ◌≢◌, String, Bool, true, false, Option, none, some, List, [], ◌∷◌, ◌++◌, arith, refl, head?,
  any, str_eq, eq_iff, eq_refl, if◌then◌else◌, Bool-cases, inl, inr,
}
use claude_email.Table.{select, update}

module _ {A : Type 0} (key : A → String) where
  abbrev pub keyed : String → A → Bool
  keyed k x = str_eq (key x) k

  -- fetchone of a SELECT by the key
  abbrev pub row_of : String → List A → Option A
  row_of k xs = head? (select (keyed k) xs)

  -- INSERT … ON CONFLICT(key) DO UPDATE
  abbrev pub upsert : String → (fresh : A) (merge : A → A) → List A → List A
  upsert k fresh merge xs = if any (keyed k) xs then update (keyed k) merge xs else xs ++ fresh ∷ []

  -- The row that an upsert leaves, from the one of before.
  abbrev pub merged : (fresh : A) (merge : A → A) → Option A → A
  merged fresh merge none = fresh
  merged fresh merge (some x) = merge x

  row_of-update :
      (k : String) (merge : A → A) (xs : List A)
      → ((x : A) → key (merge x) ≡ key x)
      → row_of k (update (keyed k) merge xs) ≡ Option.map merge (row_of k xs)
  row_of-update k merge [] same = refl
  row_of-update k merge (x ∷ xs) same = ground (arith, same x, row_of-update k merge xs same)

  row_of-any :
      (k : String) (fresh : A) (merge : A → A) (xs : List A)
      → any (keyed k) xs ≡ true
      → Option.map merge (row_of k xs) ≡ some (merged fresh merge (row_of k xs))
  row_of-any k fresh merge [] h = ground arith
  row_of-any k fresh merge (x ∷ xs) h = ground (arith, row_of-any k fresh merge xs)

  row_of-append :
      (k : String) (fresh : A) (xs : List A)
      → any (keyed k) xs ≡ false
      → key fresh ≡ k
      → (row_of k (xs ++ fresh ∷ []) ≡ some fresh) × (row_of k xs ≡ none)
  row_of-append k fresh [] h e = (rw (e, eq_refl k) refl, refl)
  row_of-append k fresh (x ∷ xs) h e = ground (arith, row_of-append k fresh xs)

  -- The row of the key after an upsert.
  pub row_of-upsert :
      (k : String) (fresh : A) (merge : A → A) (xs : List A)
      → ((x : A) → key (merge x) ≡ key x)
      → key fresh ≡ k
      → row_of k (upsert k fresh merge xs) ≡ some (merged fresh merge (row_of k xs))
  row_of-upsert k fresh merge xs same e = elim (Bool-cases (any (keyed k) xs)) [
    | inl h ↦ rw (h, row_of-update k merge xs same) (row_of-any k fresh merge xs h)
    | inr h ↦ let (a, b) = row_of-append k fresh xs h e in rw (h, b) a
  ]

  row_of-update_ne :
      (j k : String) (merge : A → A) (xs : List A)
      → j ≢ k
      → ((x : A) → key (merge x) ≡ key x)
      → row_of j (update (keyed k) merge xs) ≡ row_of j xs
  row_of-update_ne j k merge [] n same = refl
  row_of-update_ne j k merge (x ∷ xs) n same =
      ground
        (arith, same x, eq_iff (key x) j, eq_iff (key x) k, row_of-update_ne j k merge xs n same)

  row_of-append_ne :
      (j : String) (fresh : A) (xs : List A)
      → key fresh ≢ j
      → row_of j (xs ++ fresh ∷ []) ≡ row_of j xs
  row_of-append_ne j fresh [] n = ground (arith, eq_iff (key fresh) j)
  row_of-append_ne j fresh (x ∷ xs) n = ground (arith, row_of-append_ne j fresh xs n)

  -- An upsert leaves the rows of the other keys.
  pub row_of-upsert_ne :
      (j k : String) (fresh : A) (merge : A → A) (xs : List A)
      → j ≢ k
      → ((x : A) → key (merge x) ≡ key x)
      → key fresh ≡ k
      → row_of j (upsert k fresh merge xs) ≡ row_of j xs
  row_of-upsert_ne j k fresh merge xs n same e = elim (Bool-cases (any (keyed k) xs)) [
    | inl h ↦ rw h (row_of-update_ne j k merge xs n same)
    | inr h ↦ rw h (row_of-append_ne j fresh xs (ground arith))
  ]
