-- ===== src/Table.antt =====
-- The SQL that the stores use, over a table as the list of its rows in rowid order:
-- SELECT … WHERE, UPDATE … WHERE … RETURNING, DELETE … WHERE, ORDER BY and LIMIT 1.
pub mod Keys
pub mod Order
pub mod Ids
pub mod Removal
use claude_email.Prelude.{
  ℕ, suc, ◌+◌, ◌≤◌, ◌≡◌, inl, inr, Bool, true, false, not, List, [], ◌∷◌, ◌++◌, map, arith, refl,
  ap, if◌then◌else◌, In, length, any,
}

module _ {ℓ} {A : Type ℓ} where
  -- SELECT * FROM t WHERE p
  abbrev pub select : (A → Bool) → List A → List A
  select p [] = []
  select p (x ∷ xs) = let rest = select p xs in if p x then x ∷ rest else rest

  -- UPDATE t SET f WHERE p
  abbrev pub update : (A → Bool) → (A → A) → List A → List A
  update p f [] = []
  update p f (x ∷ xs) = (if p x then f x else x) ∷ update p f xs

  -- UPDATE t SET f WHERE p RETURNING *
  abbrev pub returning : (A → Bool) → (A → A) → List A → List A
  returning p f [] = []
  returning p f (x ∷ xs) = let rest = returning p f xs in if p x then f x ∷ rest else rest

  -- DELETE FROM t WHERE p
  abbrev pub delete : (A → Bool) → List A → List A
  delete p xs = select (λ x. not (p x)) xs

  -- the rowcount of an UPDATE or a DELETE
  abbrev pub count_by : (A → Bool) → List A → ℕ
  count_by p [] = 0
  count_by p (x ∷ xs) = let rest = count_by p xs in if p x then suc rest else rest

  -- ORDER BY: `le a b` is false only if `b` has to stand before `a`
  abbrev pub insert_by : (A → A → Bool) → A → List A → List A
  insert_by le x [] = x ∷ []
  insert_by le x (y ∷ ys) = let rest = insert_by le x ys in if le x y then x ∷ y ∷ ys else y ∷ rest

  abbrev pub order_by : (A → A → Bool) → List A → List A
  order_by le [] = []
  order_by le (x ∷ xs) = insert_by le x (order_by le xs)

module _ {A : Type 0} where
  -- A selected row is a row that meets the condition, and every such row is selected.
  pub In-select : (p : A → Bool) (a : A) (xs : List A) → In a (select p xs) → In a xs × (p a ≡ true)
  In-select p a [] m = elim m [ ]
  In-select p a (x ∷ xs) m = ground (arith, In-select p a xs)

  pub select-In : (p : A → Bool) (a : A) (xs : List A) → In a xs → p a ≡ true → In a (select p xs)
  select-In p a [] m e = elim m [ ]
  select-In p a (x ∷ xs) m e = ground (arith, select-In p a xs)

  pub select-select_none :
      (p q : A → Bool) (xs : List A)
      → ((x : A) → q x ≡ true → p x ≡ false)
      → select p (select q xs) ≡ []
  select-select_none p q [] h = refl
  select-select_none p q (x ∷ xs) h = ground (arith, h x, select-select_none p q xs h)

  -- An UPDATE whose rows stop meeting the condition leaves none that meets it.
  pub select-update_none :
      (p : A → Bool) (f : A → A) (xs : List A)
      → ((x : A) → p (f x) ≡ false)
      → select p (update p f xs) ≡ []
  select-update_none p f [] h = refl
  select-update_none p f (x ∷ xs) h = ground (arith, h x, select-update_none p f xs h)

  -- An UPDATE that does not touch what `p` reads keeps the rows that meet `p`, up to the change.
  pub select-update_ne :
      (p q : A → Bool) (f : A → A) (xs : List A)
      → ((x : A) → q x ≡ true → (p x ≡ false) × (p (f x) ≡ false))
      → select p (update q f xs) ≡ select p xs
  select-update_ne p q f [] h = refl
  select-update_ne p q f (x ∷ xs) h = ground (arith, h x, select-update_ne p q f xs h)

  pub returning_lem :
      (p : A → Bool) (f : A → A) (xs : List A) → returning p f xs ≡ map f (select p xs)
  returning_lem p f [] = refl
  returning_lem p f (x ∷ xs) = ground (arith, returning_lem p f xs)

  pub update_none : (p : A → Bool) (f : A → A) (xs : List A) → any p xs ≡ false → update p f xs ≡ xs
  update_none p f [] h = refl
  update_none p f (x ∷ xs) h = ground (arith, update_none p f xs)

  pub any-In : (p : A → Bool) (a : A) (xs : List A) → In a xs → p a ≡ true → any p xs ≡ true
  any-In p a [] m e = elim m [ ]
  any-In p a (x ∷ xs) m e = ground (arith, any-In p a xs)

  pub count_by-any : (p : A → Bool) (xs : List A) → any p xs ≡ false → count_by p xs ≡ 0
  count_by-any p [] h = refl
  count_by-any p (x ∷ xs) h = ground (arith, count_by-any p xs)

  pub count_by-append :
      (p : A → Bool) (xs ys : List A) → count_by p (xs ++ ys) ≡ count_by p xs + count_by p ys
  count_by-append p [] ys = omega arith
  count_by-append p (x ∷ xs) ys = ground (arith, count_by-append p xs ys)

  pub length-select : (p : A → Bool) (xs : List A) → length (select p xs) ≡ count_by p xs
  length-select p [] = refl
  length-select p (x ∷ xs) = ground (arith, length-select p xs)

  -- An UPDATE that adds no row that meets `p` does not raise their number.
  pub count_by-update_le :
      (p q : A → Bool) (f : A → A) (xs : List A)
      → ((x : A) → q x ≡ true → p (f x) ≡ true → p x ≡ true)
      → count_by p (update q f xs) ≤ count_by p xs
  count_by-update_le p q f [] h = omega arith
  count_by-update_le p q f (x ∷ xs) h = ground (arith, h x, count_by-update_le p q f xs h)

  pub map-update :
      {B : Type 0} (g : A → B) (p : A → Bool) (f : A → A) (xs : List A)
      → ((x : A) → g (f x) ≡ g x)
      → map g (update p f xs) ≡ map g xs
  map-update g p f [] h = refl
  map-update g p f (x ∷ xs) h = ground (arith, h x, map-update g p f xs h)

  pub count_by-update_le_In :
      (p q : A → Bool) (f : A → A) (xs : List A)
      → ((x : A) → In x xs → q x ≡ true → p (f x) ≡ true → p x ≡ true)
      → count_by p (update q f xs) ≤ count_by p xs
  count_by-update_le_In p q f [] h = omega arith
  count_by-update_le_In p q f (x ∷ xs) h =
      ground (arith, h x (inl refl), count_by-update_le_In p q f xs (λ y m. h y (inr m)))

  pub count_by-update_add :
      (p q : A → Bool) (f : A → A) (xs : List A)
      → count_by p (update q f xs) ≤ count_by p xs + count_by q xs
  count_by-update_add p q f [] = omega arith
  count_by-update_add p q f (x ∷ xs) = ground (arith, count_by-update_add p q f xs)

  pub update_cong :
      (p q : A → Bool) (f : A → A) (xs : List A)
      → ((t : A) → In t xs → p t ≡ q t)
      → update p f xs ≡ update q f xs
  update_cong p q f [] h = refl
  update_cong p q f (x ∷ xs) h =
      rw (h x (inl refl))
        (ap (◌∷◌ (if q x then f x else x)) (update_cong p q f xs (λ t m. h t (inr m))))

  pub select_cong_none :
      (p : A → Bool) (f : A → A) (xs : List A)
      → ((t : A) → In t xs → p t ≡ false)
      → (update p f xs ≡ xs) × (returning p f xs ≡ [])
  select_cong_none p f [] h = (refl, refl)
  select_cong_none p f (x ∷ xs) h =
      let (u, r) = select_cong_none p f xs (λ t m. h t (inr m)) in
      (rw (h x (inl refl), u), rw (h x (inl refl), r))

  pub returning_cong :
      (p q : A → Bool) (f : A → A) (xs : List A)
      → ((t : A) → In t xs → p t ≡ q t)
      → returning p f xs ≡ returning q f xs
  returning_cong p q f [] h = refl
  returning_cong p q f (x ∷ xs) h =
      rw (h x (inl refl), returning_cong p q f xs (λ t m. h t (inr m)))

  pub select_cong :
      (p q : A → Bool) (xs : List A) → ((t : A) → In t xs → p t ≡ q t) → select p xs ≡ select q xs
  select_cong p q [] h = refl
  select_cong p q (x ∷ xs) h = rw (h x (inl refl), select_cong p q xs (λ t m. h t (inr m)))

  pub select-append :
      (p : A → Bool) (xs ys : List A) → select p (xs ++ ys) ≡ select p xs ++ select p ys
  select-append p [] ys = refl
  select-append p (x ∷ xs) ys = ground (arith, select-append p xs ys)
