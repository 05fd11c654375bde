-- ===== src/Branch.antt =====
-- src/git_ops.py and src/branch_prep.py. The git command, regular expressions and Python's methods
-- on texts are outside the repository: they are arguments. `World` is what git reads and writes.
pub mod Safety
mod Tests
use claude_email.Prelude.{
  ℕ, String, Bool, true, false, not, ◌&&◌, Option, none, some, List, [], ◌∷◌, ℤ, pos, eqb_ℤ, str_eq,
  if◌then◌else◌, ◌<+>◌, show_ℕ, show_ℤ, or_text, or_empty,
}
use claude_email.Db.{Task, Tasks}
use claude_email.Queue.{mark_failed, set_branch}

-- What `_git` returns, the texts stripped.
pub record Output : Type 0 where
  pub rc : ℤ
  pub out : String
  pub err : String

abbrev pub succeeded : Output → Bool
succeeded o = eqb_ℤ o.rc (pos 0)

-- `(rc == 0, err if rc != 0 else "")`
abbrev pub outcome : Output → Bool × String
outcome o = (succeeded o, if succeeded o then "" else o.err)

abbrev pub clean_of : Output → Bool × String
clean_of o =
    if succeeded o
    then (str_eq o.out "", o.out)
    else (false, or_text o.err ("git status rc=" <+> show_ℤ o.rc))

abbrev pub branch_of : Output → String
branch_of o = if not (succeeded o) then "" else if str_eq o.out "HEAD" then "" else o.out

-- `v is None` counts as mutating
abbrev pub is_mutating : Task → Bool
is_mutating t = elim t.mutates_repo [ none ↦ true | some b ↦ b ]

-- What `prepare_branch` returns, and what it leaves.
pub record Prepared (World : Type 0) : Type 0 where
  pub go : Bool
  pub queue : Tasks
  pub world : World

-- `strip` is `str.strip`, `valid` is whether `_VALID_TASK_BRANCH_RE` matches, and `slugify` is made
-- of `_SLUG_RE.sub` and methods of `str`.
pub record Texts : Type 0 where
  pub strip : String → String
  pub valid : String → Bool
  pub slugify : String → String

module _ (texts : Texts) where
  unfoldable pub task_branch_name : (task_id : ℕ) (body : String) → String
  task_branch_name n body = "claude/task-" <+> show_ℕ n <+> "-" <+> texts.slugify body

  -- the prior branch's name if it is set and valid, else ""
  unfoldable pub valid_prior : Task → String
  valid_prior t =
      let name = texts.strip (or_empty t.branch_name) in
      if not (str_eq name "") && texts.valid name then name else ""

module _ {World : Type 0} (git : List String → World → Output × World) where
  unfoldable pub is_git_repo : World → Bool × World
  is_git_repo w =
      let (o, w') = git ("rev-parse" ∷ "--is-inside-work-tree" ∷ []) w in (succeeded o, w')

  unfoldable pub is_clean : World → (Bool × String) × World
  is_clean w = let (o, w') = git ("status" ∷ "--porcelain" ∷ []) w in (clean_of o, w')

  unfoldable pub current_branch : World → String × World
  current_branch w =
      let (o, w') = git ("rev-parse" ∷ "--abbrev-ref" ∷ "HEAD" ∷ []) w in (branch_of o, w')

  unfoldable pub branch_exists : String → World → Bool × World
  branch_exists name w =
      let (o, w') = git ("show-ref" ∷ "--verify" ∷ "--quiet" ∷ ("refs/heads/" <+> name) ∷ []) w in
      (succeeded o, w')

  unfoldable pub checkout_existing_branch : String → World → (Bool × String) × World
  checkout_existing_branch name w = let (o, w') = git ("checkout" ∷ name ∷ []) w in (outcome o, w')

  unfoldable pub checkout_new_branch : String → World → (Bool × String) × World
  checkout_new_branch name w =
      let (o, w') = git ("checkout" ∷ "-b" ∷ name ∷ []) w in (outcome o, w')

  module _ (texts : Texts) (now : ℕ) where
    abbrev pub refuse : (task_id : ℕ) (msg : String) → Tasks → World → Prepared World
    refuse n msg queue w = record { go = false; queue = mark_failed now n msg queue; world = w }

    abbrev pub keep : Tasks → World → Prepared World
    keep queue w = record { go = true; queue = queue; world = w }

    abbrev pub named_head : String → String
    named_head current = or_text current "detached HEAD"

    unfoldable pub new_branch : Task → Tasks → World → Prepared World
    unfolding task_branch_name is_clean checkout_new_branch
    new_branch t queue w =
        let ((clean, status), w₁) = is_clean w in
        let branch = task_branch_name texts t.id t.body in
        let ((ok, err), w₂) = checkout_new_branch branch w₁ in
        if not clean
        then refuse t.id ("repo dirty — commit or stash first:\n" <+> status) queue w₁
        else if not ok
        then refuse t.id ("could not create branch " <+> branch <+> ": " <+> err) queue w₂
        else record { go = true; queue = set_branch t.id branch queue; world = w₂ }

    unfoldable pub handle_prior : Task → String → Tasks → World → Prepared World
    unfolding new_branch current_branch is_clean branch_exists checkout_existing_branch
    handle_prior t prior queue w =
        let (current, w₁) = current_branch w in
        let ((clean, status), w₂) = is_clean w₁ in
        let (there, w₃) = branch_exists prior w₂ in
        let ((ok, err), w₄) = checkout_existing_branch prior w₃ in
        if str_eq current prior
        then keep queue w₁
        else if not clean
        then refuse t.id
            ("repo dirty on '"
              <+> named_head current
              <+> "', cannot switch to prior branch '"
              <+> prior
              <+> "' safely; commit or stash first:\n"
              <+> status)
            queue w₂
        else if not there
        then new_branch t queue w₃
        else if not ok
        then refuse t.id ("could not checkout existing branch " <+> prior <+> ": " <+> err) queue w₄
        else keep queue w₄

    unfoldable pub prepare_branch : Task → Tasks → World → Prepared World
    unfolding handle_prior new_branch valid_prior is_git_repo
    prepare_branch t queue w =
        let (repo, w₁) = is_git_repo w in
        let prior = valid_prior texts t in
        if not repo
        then keep queue w₁
        else if str_eq prior "" && not (is_mutating t)
        then keep queue w₁
        else if not (str_eq prior "")
        then handle_prior t prior queue w₁
        else new_branch t queue w₁

  unfoldable pub commit_all : (message : String) → World → (Bool × String) × World
  unfolding is_git_repo
  commit_all message w =
      let (repo, w₁) = is_git_repo w in
      let (added, w₂) = git ("add" ∷ "-A" ∷ []) w₁ in
      let (staged, w₃) = git ("diff" ∷ "--cached" ∷ "--quiet" ∷ []) w₂ in
      let (done, w₄) = git ("commit" ∷ "-m" ∷ message ∷ "--no-gpg-sign" ∷ []) w₃ in
      let (sha, w₅) = git ("rev-parse" ∷ "--short" ∷ "HEAD" ∷ []) w₄ in
      if not repo
      then ((false, "not a git repository"), w₁)
      else if not (succeeded added)
      then ((false, or_text added.err ("git add rc=" <+> show_ℤ added.rc)), w₂)
      else if succeeded staged
      then ((false, "nothing to commit — repo already clean"), w₃)
      else if not (succeeded done)
      then ((false, or_text done.err ("git commit rc=" <+> show_ℤ done.rc)), w₄)
      else ((succeeded sha, if succeeded sha then sha.out else "committed (sha lookup failed)"), w₅)

  unfoldable pub push_current_branch : World → (Bool × String) × World
  push_current_branch w =
      let (o, w') = git ("push" ∷ []) w in
      (
        if succeeded o
            then (true, or_text o.out "pushed")
            else (false, or_text o.err (or_text o.out ("git push rc=" <+> show_ℤ o.rc))),
        w',
      )
