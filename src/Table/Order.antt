-- ===== src/Table/Order.antt =====
-- What ORDER BY gives: a list in order, with the rows of the table and no others.
use claude_email.Prelude.{
  Bool-cases, ◌≡◌, Bool, true, false, List, [], ◌∷◌, arith, if◌then◌else◌, In, All, inl, inr,
}
use claude_email.Table.{insert_by, order_by}

module _ {A : Type 0} (le : A → A → Bool) where
  -- Each row may stand before all that follow it.
  abbrev pub IsOrdered : List A → Type 0
  IsOrdered [] = Unit
  IsOrdered (x ∷ xs) = All (λ y. le x y ≡ true) xs × IsOrdered xs

  In-insert_by : (a x : A) (ys : List A) → In a (insert_by le x ys) → In a (x ∷ ys)
  In-insert_by a x [] m = m
  In-insert_by a x (y ∷ ys) m = ground (arith, In-insert_by a x ys)

  insert_by-In : (a x : A) (ys : List A) → In a (x ∷ ys) → In a (insert_by le x ys)
  insert_by-In a x [] m = m
  insert_by-In a x (y ∷ ys) m = ground (arith, insert_by-In a x ys)

  pub In-order_by : (a : A) (xs : List A) → In a (order_by le xs) → In a xs
  In-order_by a [] m = m
  In-order_by a (x ∷ xs) m = ground (arith, In-insert_by a x (order_by le xs), In-order_by a xs)

  pub order_by-In : (a : A) (xs : List A) → In a xs → In a (order_by le xs)
  order_by-In a [] m = m
  order_by-In a (x ∷ xs) (inl e) = insert_by-In a x (order_by le xs) (inl e)
  order_by-In a (x ∷ xs) (inr m) = insert_by-In a x (order_by le xs) (inr (order_by-In a xs m))

  module _ (total : (a b : A) → le a b ≡ false → le b a ≡ true)
      (trans : (a b c : A) → le a b ≡ true → le b c ≡ true → le a c ≡ true) where
    All-trans :
        (x y : A) (ys : List A)
        → le x y ≡ true
        → All (λ z. le y z ≡ true) ys
        → All (λ z. le x z ≡ true) ys
    All-trans x y [] h k = tt
    All-trans x y (z ∷ zs) h k = (trans x y z h k.0, All-trans x y zs h k.1)

    All-insert_by :
        (z x : A) (ys : List A)
        → le z x ≡ true
        → All (λ y. le z y ≡ true) ys
        → All (λ y. le z y ≡ true) (insert_by le x ys)
    All-insert_by z x [] h k = (h, tt)
    All-insert_by z x (y ∷ ys) h k =
        elim (le x y)
          as (λ b. All (λ w. le z w ≡ true) (if b then x ∷ y ∷ ys else y ∷ insert_by le x ys)) [
            | true ↦ (h, k)
            | false ↦ (k.0, All-insert_by z x ys h k.1)
          ]

    insert_by-IsOrdered : (x : A) (ys : List A) → IsOrdered ys → IsOrdered (insert_by le x ys)
    insert_by-IsOrdered x [] h = (tt, tt)
    insert_by-IsOrdered x (y ∷ ys) h = elim (Bool-cases (le x y)) [
      | inl e ↦ rw e ((e, All-trans x y ys e h.0), h)
      | inr e ↦ rw e (All-insert_by y x ys (total x y e) h.0, insert_by-IsOrdered x ys h.1)
    ]

    pub order_by-IsOrdered : (xs : List A) → IsOrdered (order_by le xs)
    order_by-IsOrdered [] = tt
    order_by-IsOrdered (x ∷ xs) = insert_by-IsOrdered x (order_by le xs) (order_by-IsOrdered xs)
