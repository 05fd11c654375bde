-- ===== src/Branch/Safety.antt =====
-- What the preparation of a branch does to a dirty repository, and to the queue.
use claude_email.Prelude.{
  ℕ, ◌&&◌, ◌≡◌, ◌⊎◌, String, Bool, if◌then◌else◌, true, false, not, List, [], ◌∷◌, arith, refl, inl,
  inr, str_eq,
}
use claude_email.Db.{Task, Tasks}
use claude_email.Queue.{mark_failed, set_branch}
use claude_email.Branch.{
  refuse, keep, checkout_new_branch, checkout_existing_branch, Output, Prepared, Texts, is_git_repo,
  is_clean, current_branch, branch_exists, new_branch, handle_prior, prepare_branch, valid_prior,
  task_branch_name, is_mutating,
}

if_intro : {A : Type 0} (P : A → Type 0) (b : Bool) (x y : A) → P x → P y → P (if b then x else y)
if_intro P true x y h k = h
if_intro P false x y h k = k

module _ {World : Type 0} (git : List String → World → Output × World) where
  -- The commands that only read leave the work tree and the branches as they are.
  pub record IsReadOnly : Type 0 where
    pub rev_parse : (a b : String) (w : World) → (git ("rev-parse" ∷ a ∷ b ∷ []) w).1 ≡ w
    pub inside : (a : String) (w : World) → (git ("rev-parse" ∷ a ∷ []) w).1 ≡ w
    pub status : (w : World) → (git ("status" ∷ "--porcelain" ∷ []) w).1 ≡ w
    pub show_ref :
        (name : String) (w : World)
        → (git ("show-ref" ∷ "--verify" ∷ "--quiet" ∷ name ∷ []) w).1 ≡ w

  module _ (texts : Texts) (now : ℕ) (t : Task) (queue : Tasks) (w : World) where
    abbrev pub prepared : Prepared World
    prepared = prepare_branch git texts now t queue w

    -- The task goes ahead, with its new branch noted or with nothing written, or it is failed.
    pub GoesOrFails : Prepared World → Type 0
    GoesOrFails p =
        ((p.go ≡ true)
          × ((p.queue ≡ queue)
              ⊎ (p.queue ≡ set_branch t.id (task_branch_name texts t.id t.body) queue)))
        ⊎ ((p.go ≡ false) × (msg : String) × (p.queue ≡ mark_failed now t.id msg queue))

    fails : (msg : String) (v : World) → GoesOrFails (refuse git texts now t.id msg queue v)
    unfolding GoesOrFails
    fails msg v = inr (refl, msg, refl)

    goes : (v : World) → GoesOrFails (keep git texts now queue v)
    unfolding GoesOrFails
    goes v = inl (refl, inl refl)

    notes :
        (v : World)
        → GoesOrFails (record {
          go = true;
          queue = set_branch t.id (task_branch_name texts t.id t.body) queue;
          world = v;
        })
    unfolding GoesOrFails
    notes v = inl (refl, inr refl)

    new_branch-GoesOrFails : (v : World) → GoesOrFails (new_branch git texts now t queue v)
    unfolding new_branch
    new_branch-GoesOrFails v =
        let ((clean, _), w₁) = is_clean git v in
        let ((ok, _), _) = checkout_new_branch git (task_branch_name texts t.id t.body) w₁ in
        if_intro GoesOrFails (not clean) _ _ (fails _ _)
          (if_intro GoesOrFails (not ok) _ _ (fails _ _) (notes _))

    handle_prior-GoesOrFails :
        (prior : String) (v : World) → GoesOrFails (handle_prior git texts now t prior queue v)
    unfolding handle_prior
    handle_prior-GoesOrFails prior v =
        let (current, w₁) = current_branch git v in
        let ((clean, _), w₂) = is_clean git w₁ in
        let (there, w₃) = branch_exists git prior w₂ in
        let ((ok, _), _) = checkout_existing_branch git prior w₃ in
        if_intro GoesOrFails (str_eq current prior) _ _ (goes _) (
          if_intro GoesOrFails (not clean) _ _ (fails _ _) (
            if_intro GoesOrFails (not there) _ _ (new_branch-GoesOrFails _)
              (if_intro GoesOrFails (not ok) _ _ (fails _ _) (goes _))))

    -- Whatever git answers, `prepare_branch` returns True and has written nothing to the queue or
    -- the task's new branch alone, or it returns False and has failed the task with a message and
    -- written nothing else.
    pub prepare_branch-GoesOrFails : GoesOrFails prepared
    unfolding prepare_branch
    prepare_branch-GoesOrFails =
        let (repo, _) = is_git_repo git w in
        let prior = valid_prior texts t in
        if_intro GoesOrFails (not repo) _ _ (goes _) (
          if_intro GoesOrFails (str_eq prior "" && not (is_mutating t)) _ _ (goes _) (
            if_intro GoesOrFails (not (str_eq prior "")) _ _ (handle_prior-GoesOrFails _ _)
              (new_branch-GoesOrFails _)))

    new_branch_dirty :
        (is_clean git w).0.0 ≡ false
        → let p = new_branch git texts now t queue w in
          (p.go ≡ false) × (p.world ≡ (is_clean git w).1)
    unfolding new_branch is_clean
    new_branch_dirty h = ground arith

  module _ (texts : Texts) (now : ℕ) (t : Task) (queue : Tasks) where
    handle_prior_dirty :
        (prior : String) (w : World)
        → IsReadOnly
        → (is_clean git w).0.0 ≡ false
        → let p = handle_prior git texts now t prior queue w in
          (p.world ≡ w) × (p.go ≡ str_eq (current_branch git w).0 prior)
    unfolding handle_prior is_clean current_branch
    handle_prior_dirty prior w pure h =
        rw (pure.rev_parse "--abbrev-ref" "HEAD" w, pure.status w) (ground arith)

    -- In a dirty repository `prepare_branch` leaves git's world as it is, given that git's reading
    -- commands do; and the task goes ahead exactly if it only reads and has no valid prior branch,
    -- or is on its valid prior branch already.
    pub prepare_branch_dirty :
        (w : World)
        → IsReadOnly
        → (is_git_repo git w).0 ≡ true
        → (is_clean git w).0.0 ≡ false
        → let p = prepare_branch git texts now t queue w in
          let prior = valid_prior texts t in
          (p.world ≡ w)
          × (p.go ≡ (
              if str_eq prior ""
              then not (is_mutating t)
              else str_eq (current_branch git w).0 prior))
    unfolding prepare_branch is_git_repo
    prepare_branch_dirty w pure repo h =
        let in_repo = pure.inside "--is-inside-work-tree" w in
        let (k, l) = handle_prior_dirty (valid_prior texts t) w pure h in
        let (a, b) = new_branch_dirty texts now t queue w h in
        let clean : (is_clean git w).1 ≡ w = unfold is_clean in pure.status w in
        rw (in_repo, repo) (ground (arith, clean))
