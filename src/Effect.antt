-- ===== src/Effect.antt =====
-- Bodies of transactions: a function of the database that returns a value and the new database, or
-- raises. What a body wrote before it raised is rolled back by the wrapper of src/chat_db_tx.py,
-- so no database comes back beside an error.
use claude_email.Prelude.{Bool, true, false, String, ℤ, ◌≡◌, refl, ◌⊎◌, inl, inr}
use claude_email.Db.{Db}

pub data Error : Type 0 where
  integrity_error : Error
  locked : Error
  operational_error : Error
  name_taken : String → ℤ → Error
  value_error : String → Error
  os_error : String → Error

pub data Result {ℓ} (A : Type ℓ) : Type ℓ where
  ok : A → Result A
  raise : Error → Result A

-- An exception that `except ValueError` lets through.
abbrev pub IsOther : Error → Type 0
IsOther (value_error s) = ⊥
IsOther _ = Unit

abbrev pub Action : Type 0 → Type 0
Action A = Db → Result (A × Db)

infixl 5 ◌>>=◌ ◌>>◌
abbrev pub ◌>>=◌ : {A B : Type 0} → Action A → (A → Action B) → Action B
◌>>=◌ m f db = elim (m db) [ ok (a, db') ↦ f a db' | raise e ↦ raise e ]

abbrev pub ◌>>◌ : {A B : Type 0} → Action A → Action B → Action B
m >> n = m >>= λ _. n

abbrev pub pure : {A : Type 0} → A → Action A
pure a db = ok (a, db)

abbrev pub throw : {A : Type 0} → Error → Action A
throw e db = raise e

abbrev pub gets : {A : Type 0} → (Db → A) → Action A
gets f db = ok (f db, db)

abbrev pub modify : (Db → Db) → Action (Unit {0})
modify f db = ok (tt, f db)

-- A foreign key or another constraint of the schema.
abbrev pub require : Bool → Action (Unit {0})
require true db = ok (tt, db)
require false db = raise integrity_error

pub Result-cases {ℓ} :
    {A : Type ℓ} (r : Result A) → ((a : A) × (r ≡ ok a)) ⊎ ((e : Error) × (r ≡ raise e))
Result-cases (ok a) = inl (a, refl)
Result-cases (raise e) = inr (e, refl)
