-- ===== src/Table/Removal.antt =====
-- Lemmas on rows that leave a list: what deleting, selecting, counting and sorting do to each other.
use claude_email.Prelude.{
  ◌≤◌, Bool, true, false, ◌&&◌, some, List, [], ◌∷◌, ◌≡◌, refl, ◌∙◌, ap, arith, Bool-cases, inl,
  inr, ◌⊎◌, any, head?, if◌then◌else◌, All,
}
use claude_email.Table.{select, update, delete, returning, count_by, insert_by, order_by}
use claude_email.Table.Order.{IsOrdered, order_by-IsOrdered}

module _ {A : Type 0} (le : A → A → Bool) (total : (a b : A) → le a b ≡ false → le b a ≡ true)
    (trans : (a b c : A) → le a b ≡ true → le b c ≡ true → le a c ≡ true) where
  insert_least : (x : A) (ys : List A) → All (λ y. le x y ≡ true) ys → insert_by le x ys ≡ x ∷ ys
  insert_least x [] h = refl
  insert_least x (y ∷ ys) h = rw (h.0) refl

  All-delete :
      (q : A → Bool) (x : A) (ys : List A)
      → All (λ y. le x y ≡ true) ys
      → All (λ y. le x y ≡ true) (delete q ys)
  All-delete q x [] h = tt
  All-delete q x (y ∷ ys) h = elim (Bool-cases (q y)) [
    | inl e ↦ rw (e) (All-delete q x ys h.1)
    | inr e ↦ rw (e) (h.0, All-delete q x ys h.1)
  ]

  All-le_trans :
      (x y : A) (ys : List A)
      → le x y ≡ true
      → All (λ z. le y z ≡ true) ys
      → All (λ z. le x z ≡ true) ys
  All-le_trans x y [] h k = tt
  All-le_trans x y (z ∷ zs) h k = (trans x y z h k.0, All-le_trans x y zs h k.1)

  delete-insert_by :
      (q : A → Bool) (x : A) (ys : List A)
      → IsOrdered le ys
      → delete q (insert_by le x ys) ≡ (if q x then delete q ys else insert_by le x (delete q ys))
  delete-insert_by q x [] h = ground arith
  delete-insert_by q x (y ∷ ys) h = elim (Bool-cases (le x y)) [
    | inl e ↦
        let all : All (λ z. le x z ≡ true) (y ∷ ys) = (e, All-le_trans x y ys e h.0) in
        rw (e, insert_least x (delete q (y ∷ ys)) (All-delete q x (y ∷ ys) all)) (ground arith)
    | inr e ↦ elim (Bool-cases (q y)) [
      | inl k ↦ rw (e, k) (delete-insert_by q x ys h.1)
      | inr k ↦ rw (e, k, delete-insert_by q x ys h.1) (ground arith)
    ]
  ]

  -- Sorting what is left is what is left of the sorted rows.
  pub delete-order_by :
      (q : A → Bool) (xs : List A) → delete q (order_by le xs) ≡ order_by le (delete q xs)
  delete-order_by q [] = refl
  delete-order_by q (x ∷ xs) =
      delete-insert_by q x (order_by le xs) (order_by-IsOrdered le total trans xs)
      ∙ elim (Bool-cases (q x)) [
        | inl e ↦ rw (e) (delete-order_by q xs)
        | inr e ↦ rw (e) (ap (insert_by le x) (delete-order_by q xs))
      ]

count_by-insert_by :
    {A : Type 0}
    → (le : A → A → Bool) → (q : A → Bool) (x : A) (ys : List A)
    → count_by q (insert_by le x ys) ≡ count_by q (x ∷ ys)
count_by-insert_by le q x [] = refl
count_by-insert_by le q x (y ∷ ys) = ground (arith, count_by-insert_by le q x ys)

pub count_by-order_by :
    {A : Type 0}
    → (le : A → A → Bool) → (q : A → Bool) (xs : List A)
    → count_by q (order_by le xs) ≡ count_by q xs
count_by-order_by le q [] = refl
count_by-order_by le q (x ∷ xs) =
    ground (arith, count_by-insert_by le q x (order_by le xs), count_by-order_by le q xs)

pub delete_none : {A : Type 0} → (q : A → Bool) (xs : List A) → count_by q xs ≡ 0 → delete q xs ≡ xs
delete_none q [] h = refl
delete_none q (x ∷ xs) h = ground (arith, delete_none q xs)

pub count_by-&& :
    {A : Type 0} → (p q : A → Bool) (xs : List A) → count_by (λ t. p t && q t) xs ≤ count_by p xs
count_by-&& p q [] = omega arith
count_by-&& p q (x ∷ xs) = ground (arith, count_by-&& p q xs)

pub select-update-delete :
    {A : Type 0}
    → (p u : A → Bool) (f : A → A) (xs : List A) → ((t : A) → p (f t) ≡ false)
    → select p (update u f xs) ≡ delete u (select p xs)
select-update-delete p u f [] h = refl
select-update-delete p u f (x ∷ xs) h = ground (arith, h x, select-update-delete p u f xs h)

pub select-update_new :
    {A : Type 0}
    → (p u : A → Bool) (f : A → A) (xs : List A) → any p xs ≡ false
    → ((t : A) → u t ≡ true → p (f t) ≡ true)
    → select p (update u f xs) ≡ returning u f xs
select-update_new p u f [] h k = refl
select-update_new p u f (x ∷ xs) h k = ground (arith, k x, select-update_new p u f xs)

pub select-any : {A : Type 0} → (p : A → Bool) (xs : List A) → any p xs ≡ false → select p xs ≡ []
select-any p [] h = refl
select-any p (x ∷ xs) h = ground (arith, select-any p xs)

pub any-select :
    {A : Type 0}
    → (p : A → Bool) (xs : List A) → any p xs ≡ true
    → (t : A) × (head? (select p xs) ≡ some t)
any-select p [] h = cc
any-select p (x ∷ xs) h = elim (Bool-cases (p x)) [
  | inl e ↦ (x, rw (e) refl)
  | inr e ↦ let (t, q) = any-select p xs (ground arith) in (t, rw (e) q)
]

pub List-cases :
    {A : Type 0} → (xs : List A) → (xs ≡ []) ⊎ ((x : A) × (rest : List A) × (xs ≡ x ∷ rest))
List-cases [] = inl refl
List-cases (x ∷ xs) = inr (x, xs, refl)
