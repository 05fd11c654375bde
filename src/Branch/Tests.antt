-- ===== src/Branch/Tests.antt =====
-- The preparation of a branch over a small git: the world is the name of the branch, and a dirty
-- work tree is one whose branch is `main`.
use claude_email.Prelude.{
  ◌≡◌, String, true, false, not, none, List, [], ◌∷◌, pos, refl, str_eq, if◌then◌else◌,
}
use claude_email.Db.{Task, Tasks}
use claude_email.Queue.{new_task, no_origin}
use claude_email.Branch.{
  Output, Texts, is_git_repo, is_clean, current_branch, prepare_branch, valid_prior, is_mutating,
}
use claude_email.Branch.Safety.{
  IsReadOnly, GoesOrFails, prepare_branch-GoesOrFails, prepare_branch_dirty,
}

abbrev answer : String → Output
answer out = record { rc = pos 0; out = out; err = "" }

abbrev last : String → List String → String
last d [] = d
last d (x ∷ xs) = last x xs

abbrev git : List String → String → Output × String
git [] w = (answer "", w)
git (verb ∷ args) w =
    if str_eq verb "checkout"
    then (answer "", last w args)
    else if str_eq verb "status"
    then (answer (if str_eq w "main" then " M x.py" else ""), w)
    else if str_eq verb "rev-parse"
    then (answer w, w)
    else (answer "", w)

abbrev texts : Texts
texts = record { strip = λ s. s; valid = λ s. true; slugify = λ s. "task" }

abbrev task : Task
task = new_task 1 1 "/p" "fix it" (pos 0) none false no_origin "" "" none

abbrev queue : Tasks
queue = record { rows = task ∷ []; next_id = 2 }

prepare_branch-GoesOrFails_example :
    GoesOrFails git texts 5 task queue "dev" (prepare_branch git texts 5 task queue "dev")
prepare_branch-GoesOrFails_example = prepare_branch-GoesOrFails git texts 5 task queue "dev"

git-IsReadOnly : IsReadOnly git
git-IsReadOnly = record {
  rev_parse = λ a b w. refl;
  inside = λ a w. refl;
  status = λ w. refl;
  show_ref = λ name w. refl;
}

prepare_branch_dirty_example :
    let p = prepare_branch git texts 5 task queue "main" in
    let prior = valid_prior texts task in
    (p.world ≡ "main")
    × (p.go ≡ (
        if str_eq prior ""
        then not (is_mutating task)
        else str_eq (current_branch git "main").0 prior))
unfolding is_git_repo is_clean
prepare_branch_dirty_example =
    prepare_branch_dirty git texts 5 task queue "main" git-IsReadOnly refl refl
