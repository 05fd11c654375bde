-- ===== src/Reply/Stamp.antt =====
-- The stamp of the origin on the tasks of a dispatch.
use claude_email.Prelude.{
  String, Bool, false, ◌||◌, Option, List, [], ◌∷◌, str_eq, ◌≡◌, refl, Bool-cases, inl, inr, arith,
  In, any,
}
use claude_email.Table.{update, count_by, update_none, count_by}
use claude_email.Db.{Task, Tasks}
use claude_email.Reply.{to_stamp, stamped, stamp_origin_by_token}

to_stamp-stamped : (token r m u : String) (t : Task) → to_stamp token (stamped r m u t) ≡ false
to_stamp-stamped token r m u t = ground arith

none_left :
    (token r m u : String) (rows : List Task)
    → any (to_stamp token) (update (to_stamp token) (stamped r m u) rows) ≡ false
none_left token r m u [] = refl
none_left token r m u (t ∷ ts) = elim (Bool-cases (to_stamp token t)) [
  | inl e ↦ rw (e, to_stamp-stamped token r m u t) (none_left token r m u ts)
  | inr e ↦ ground (arith, e, none_left token r m u ts)
]

count_by-none : (p : Task → Bool) (rows : List Task) → any p rows ≡ false → count_by p rows ≡ 0
count_by-none p [] h = refl
count_by-none p (t ∷ ts) h = ground (arith, count_by-none p ts)

-- A row of another dispatch, or with an origin, is as it was.
update_kept :
    (p : Task → Bool) (f : Task → Task) (t : Task) (rows : List Task)
    → p t ≡ false
    → In t rows
    → In t (update p f rows)
update_kept p f t [] h i = elim i [ ]
update_kept p f t (x ∷ xs) h i = ground (arith, update_kept p f t xs h)

abbrev pub from_of : Task → Option String
from_of t = t.origin_from

-- A stamp with an address leaves a task of another dispatch, or one that has an origin, as it is; and
-- a second stamp of the same dispatch finds no row and changes nothing, whatever address it gives.
pub stamp_origin_by_token_twice :
    (token r m u r' m' u' : String) (s : Tasks) (t : Task)
    → (str_eq r "" || str_eq token "") ≡ false
    → In t s.rows
    → to_stamp token t ≡ false
    → let s' = (stamp_origin_by_token token r m u s).1 in
      In t s'.rows × (stamp_origin_by_token token r' m' u' s' ≡ (0, s'))
unfolding stamp_origin_by_token
stamp_origin_by_token_twice token r m u r' m' u' s t e i h =
    let rows = update (to_stamp token) (stamped r m u) s.rows in
    let none' = none_left token r m u s.rows in
    let same = update_none (to_stamp token) (stamped r' m' u') rows none' in
    let zero' = count_by-none (to_stamp token) rows none' in
    rw (e) (
      update_kept (to_stamp token) (stamped r m u) t s.rows h i,
      elim (Bool-cases (str_eq r' "" || str_eq token "")) [
        | inl k ↦ rw (k) refl
        | inr k ↦ rw (k, same, zero') refl
      ],
    )
