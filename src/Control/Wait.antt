-- ===== src/Control/Wait.antt =====
-- The running task of a project and the other tasks, after what other processes did meanwhile.
use mathlib.Core.Option
use claude_email.Prelude.{
  ℕ, ◌≤◌, ◌≡◌, ◌≢◌, String, Bool, true, false, none, some, List, [], ◌∷◌, arith, refl, sym, ◌∙◌, ap,
  In, inl, inr, Option-cases, head?, ==_iff, eq_iff, str_eq, map, length, &&-true, true≢false,
}
use claude_email.Table.{order_by, select, update, In-select, select-In, length-select}
use claude_email.Table.Ids.{Ascending-unique}
use claude_email.Db.{Task, Tasks}
use claude_email.Queue.{
  precedes, row_id, is_pending, has_id, running_in, pending_in, pending_rows, public_row,
  get_running, list_pending, cancel, cancelled_at,
}
use claude_email.Queue.Claim.{head?-In}
use claude_email.Queue.Invariant.{IsValid}
use claude_email.Queue.Calls.{perform-IsValid}
use claude_email.Queue.History.{Step, Reach, here, next, call, Reach-HasLater, IsLater-not_pending}

select-update_apart :
    (p q : Task → Bool) (f : Task → Task) (xs : List Task)
    → ((t : Task) → In t xs → q t ≡ true → (p t ≡ false) × (p (f t) ≡ false))
    → select p (update q f xs) ≡ select p xs
select-update_apart p q f [] h = refl
select-update_apart p q f (x ∷ xs) h =
    ground (arith, h x (inl refl), select-update_apart p q f xs (λ t i. h t (inr i)))

-- In a list of at most one row, every row is the first.
only : (xs : List Task) (c t : Task) → length xs ≤ 1 → head? xs ≡ some c → In t xs → t ≡ c
only [] c t l h i = elim i [ ]
only (x ∷ []) c t l h (inl e) = ground arith
only (x ∷ []) c t l h (inr i) = elim i [ ]
only (x ∷ y ∷ ys) c t l h i = absurd (omega (arith, l))

head?-none : (xs : List Task) → head? xs ≡ none → (x : Task) → In x xs → ⊥
head?-none [] e x i = i
head?-none (y ∷ ys) e x i = ground (arith, e)

pub public_row-id : (t : Task) → (public_row t).id ≡ t.id
unfolding public_row
public_row-id t = refl

pub running_row :
    (path : String) (s : Tasks) (r : Task)
    → get_running path s ≡ some r
    → (c : Task) × (head? (select (running_in path) s.rows) ≡ some c) × (public_row c ≡ r)
unfolding get_running
running_row path s r h = elim (Option-cases (head? (select (running_in path) s.rows))) [
  | inl e ↦ ground arith
  | inr (c, e) ↦ (c, e, ground arith)
]

Step-IsValid : {s s' : Tasks} → Step s s' → IsValid s → IsValid s'
Step-IsValid (call c s) v = perform-IsValid c s v

-- Whatever the processes do to a valid table leaves it valid.
pub Reach-IsValid : {s s' : Tasks} → Reach s s' → IsValid s → IsValid s'
Reach-IsValid here v = v
Reach-IsValid (next r step) v = Step-IsValid step (Reach-IsValid r v)

not_there :
    (t : Task) (path q : String)
    → t.project_path ≡ path
    → q ≢ path
    → str_eq t.project_path q ≡ false
not_there t path q e n = rw e (ground (arith, eq_iff path q))

In-cancelled :
    (n now : ℕ) (path : String) (x : Task) (xs : List Task)
    → In x (update (has_id n) (cancelled_at now) xs)
    → running_in path x ≡ true
    → In x xs × (has_id n x ≡ false)
In-cancelled n now path x [] i h = elim i [ ]
In-cancelled n now path x (y ∷ ys) i h = ground (arith, In-cancelled n now path x ys)

module _ (path : String) (m : Tasks) (v : IsValid m) where
  -- A running row of the project is the one that `get_running` returns.
  running_first :
      (x : Task) → In x m.rows → running_in path x ≡ true → get_running path m ≡ some (public_row x)
  unfolding get_running
  running_first x i k =
      let j = select-In (running_in path) x m.rows i k in
      elim (Option-cases (head? (select (running_in path) m.rows))) [
        | inl e ↦ elim (head?-none (select (running_in path) m.rows) e x j) [ ]
        | inr (c, e) ↦
            let same : x ≡ c =
              only (select (running_in path) m.rows) c x
                (omega (arith, v.one_running path, length-select (running_in path) m.rows)) e j in
            ap (Option.map public_row) e ∙ ap (λ t. some (public_row t)) (sym same)
      ]

-- The table `m` is what other processes made of a valid table `s` in which `c` ran for the project.
module _ (now : ℕ) (path : String) (s m : Tasks) (v : IsValid s) (reach : Reach s m) (c : Task)
    (i : In c s.rows) (k : running_in path c ≡ true) where
  -- The row of the task is there, it belongs to the project and does not wait.
  row_later :
      (t : Task)
      → In t m.rows
      → has_id c.id t ≡ true
      → (t.project_path ≡ path) × (is_pending t ≡ false)
  row_later t j w =
      let (c', j', l) = Reach-HasLater reach c i in
      let valid = Reach-IsValid reach v in
      let z : t ≡ c' =
        Ascending-unique row_id 0 m.rows m.next_id t c' valid.ids j j'
          ((==_iff t.id c.id).0 w ∙ sym l.id) in
      (
        ap (λ x. x.project_path) z
            ∙ l.project_path
            ∙ (eq_iff c.project_path path).0 (&&-true _ _ k).0,
        ap is_pending z ∙ IsLater-not_pending c c' (&&-true _ _ k).1 l,
      )

  pub cancel_running_others :
      (q : String) → q ≢ path → get_running q (cancel now c.id m) ≡ get_running q m
  unfolding get_running cancel
  cancel_running_others q n =
      ap (λ l. Option.map public_row (head? l))
        (select-update_apart (running_in q) (has_id c.id) (cancelled_at now) m.rows
          (λ t j w. (ground (arith, not_there t path q (row_later t j w).0 n), ground arith)))

  -- The pending tasks of every project stay.
  pub cancel_pending : (q : String) → list_pending q (cancel now c.id m) ≡ list_pending q m
  unfolding cancel list_pending pending_rows
  cancel_pending q =
      ap (λ l. map public_row (order_by precedes l))
        (select-update_apart (pending_in q) (has_id c.id) (cancelled_at now) m.rows
          (λ t j w. (ground (arith, (row_later t j w).1), ground arith)))

  -- What runs for the project afterwards ran before, and is another task.
  pub cancel_running :
      (t : Task)
      → get_running path (cancel now c.id m) ≡ some t
      → (get_running path m ≡ some t) × (c.id ≢ t.id)
  unfolding cancel public_row
  cancel_running t h =
      let (x, e, same) = running_row path (cancel now c.id m) t h in
      let (j, w) = In-select (running_in path) x _ (head?-In _ x e) in
      let (j', other) = In-cancelled c.id now path x m.rows j w in
      (
        running_first path m (Reach-IsValid reach v) x j' w ∙ ap (λ r. some r) same,
        λ q. true≢false (sym ((==_iff x.id c.id).1 (ap (λ r. r.id) same ∙ sym q)) ∙ other),
      )
