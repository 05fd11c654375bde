-- ===== src/Liveness/Ancestry.antt =====
-- The walks up the parent chain.
use claude_email.Prelude.{
  ℕ, zero, suc, ◌≡◌, ◌≢◌, ◌<◌, true, false, Option, none, some, pos, negsuc, arith, refl, String,
  str_eq, ◌==◌, leb, Bool-cases, inl, inr, Option-cases, ==_iff,
}
use mathlib.Core.Bool.{false≢true}
use mathlib.Core.Path.{subst}
use claude_email.Liveness.{
  is_ancestor_or_self, find_ancestor_pid_matching, ancestor_from, find_from,
}

none≢some : (n : ℕ) → none ≢ some n
none≢some n e = cc

module _ (get_ppid : ℕ → Option ℕ) where
  -- `anc` is reached from `pid` in `n` steps to the parent, each to a process above init.
  pub data Chain : ℕ → ℕ → ℕ → Type 0 where
    self : {pid : ℕ} → Chain zero pid pid
    up :
        {n pid parent anc : ℕ}
        → get_ppid pid ≡ some parent
        → 1 < parent
        → Chain n parent anc
        → Chain (suc n) pid anc

  from-Chain :
      (rounds n current target : ℕ)
      → Chain n current target
      → n < rounds
      → ancestor_from get_ppid rounds current target ≡ true
  unfolding ancestor_from
  from-Chain zero n current target c h = absurd (omega arith)
  from-Chain (suc rounds) zero current target self h = ground arith
  from-Chain (suc rounds) (suc n) current target (up {parent = parent} e l c) h =
      let ih = from-Chain rounds n parent target c (omega arith) in ground arith

  Chain-from :
      (rounds current target : ℕ)
      → ancestor_from get_ppid rounds current target ≡ true
      → (n : ℕ) × (n < rounds) × Chain n current target
  unfolding ancestor_from
  Chain-from zero current target h = absurd (false≢true h)
  Chain-from (suc rounds) current target h = elim (Bool-cases (current == target)) [
    | inl e ↦ (0, omega arith, subst (λ t. Chain 0 current t) ((==_iff _ _).0 e) self)
    | inr e ↦ elim (Option-cases (get_ppid current)) [
      | inl q ↦ absurd (false≢true (ground arith))
      | inr (parent, q) ↦
          let l : 1 < parent = ground arith in
          let (n, k, c) = Chain-from rounds parent target (ground arith) in
          (suc n, omega arith, up q l c)
    ]
  ]

  -- The test is true exactly of this process and of the processes above init that its chain of
  -- parents reaches in fewer than 64 steps; it is false of every pid that is not positive.
  pub is_ancestor_or_self_iff :
      (pid t : ℕ)
      → (is_ancestor_or_self get_ppid pid (pos (suc t)) ≡ true
          → (n : ℕ) × (n < 64) × Chain n pid (suc t))
        × ((n : ℕ)
            → n < 64
            → Chain n pid (suc t)
            → is_ancestor_or_self get_ppid pid (pos (suc t)) ≡ true)
        × (is_ancestor_or_self get_ppid pid (pos 0) ≡ false)
        × (is_ancestor_or_self get_ppid pid (negsuc t) ≡ false)
  unfolding is_ancestor_or_self
  is_ancestor_or_self_iff pid t =
      (Chain-from 64 pid (suc t), λ n h c. from-Chain 64 n pid (suc t) c h, refl, refl)

  module _ (argv0_basename : ℕ → String) (name : String) where
    find_none :
        (rounds p : ℕ) → find_from get_ppid argv0_basename rounds none name ≡ some p → none ≡ some p
    unfolding find_from
    find_none zero p h = h
    find_none (suc rounds) p h = h

    find_sound :
        (rounds pid p : ℕ)
        → find_from get_ppid argv0_basename rounds (some pid) name ≡ some p
        → (n : ℕ) × (n < rounds)
          × Chain n pid p
          × (1 < pid)
          × (1 < p)
          × (str_eq (argv0_basename p) name ≡ true)
    unfolding find_from
    find_sound zero pid p h = absurd (none≢some p h)
    find_sound (suc rounds) pid p h = elim (Bool-cases (leb pid 1)) [
      | inl e ↦ absurd (none≢some p (ground arith))
      | inr e ↦ elim (Bool-cases (str_eq (argv0_basename pid) name)) [
        | inl m ↦
            let q : pid ≡ p = ground arith in
            (
              0,
              omega arith,
              subst (λ t. Chain 0 pid t) q self,
              ground arith,
              ground arith,
              ground arith,
            )
        | inr m ↦ elim (Option-cases (get_ppid pid)) [
          | inl u ↦ absurd (none≢some p (find_none rounds p (ground arith)))
          | inr (parent, u) ↦
              let (n, k, c, first, l, w) = find_sound rounds parent p (ground arith) in
              (suc n, omega arith, up u first c, ground arith, l, w)
        ]
      ]
    ]

    find_complete :
        (rounds n pid p : ℕ)
        → Chain n pid p
        → n < rounds
        → 1 < pid
        → str_eq (argv0_basename p) name ≡ true
        → find_from get_ppid argv0_basename rounds (some pid) name ≢ none
    unfolding find_from
    find_complete zero n pid p c h l m = absurd (omega arith)
    find_complete (suc rounds) zero pid p self h l m = ground arith
    find_complete (suc rounds) (suc n) pid p (up {parent = parent} e k c) h l m =
        let ih = find_complete rounds n parent p c (omega arith) k m in ground arith

    found_up :
        (pid p : ℕ) (first : Option ℕ)
        → get_ppid pid ≡ first
        → find_from get_ppid argv0_basename 64 first name ≡ some p
        → (n : ℕ) × (n < 65) × (0 < n) × Chain n pid p × (str_eq (argv0_basename p) name ≡ true)
    found_up pid p none e h = absurd (none≢some p (find_none 64 p h))
    found_up pid p (some first) e h =
        let (n, k, c, l, _, w) = find_sound 64 first p h in
        (suc n, omega arith, omega arith, up e l c, w)

    up_found :
        (n pid p : ℕ)
        → Chain n pid p
        → n < 65
        → 0 < n
        → str_eq (argv0_basename p) name ≡ true
        → find_from get_ppid argv0_basename 64 (get_ppid pid) name ≢ none
    up_found zero pid p c l q m = absurd (omega arith)
    up_found (suc n) pid p (up {parent = parent} e k c) l q m =
        rw e (find_complete 64 n parent p c (omega arith) k m)

    -- What the walk returns is an ancestor of this process, above init and fewer than 65 steps up,
    -- whose argv[0] has the name; and it returns one whenever there is one that near.
    pub find_ancestor_lem :
        (pid : ℕ)
        → ((p : ℕ)
            → find_ancestor_pid_matching get_ppid argv0_basename pid name ≡ some p
            → (n : ℕ) × (n < 65)
              × (0 < n)
              × Chain n pid p
              × (str_eq (argv0_basename p) name ≡ true))
          × ((n p : ℕ)
              → n < 65
              → 0 < n
              → Chain n pid p
              → str_eq (argv0_basename p) name ≡ true
              → find_ancestor_pid_matching get_ppid argv0_basename pid name ≢ none)
    unfolding find_ancestor_pid_matching
    find_ancestor_lem pid =
        (λ p h. found_up pid p (get_ppid pid) refl h, λ n p l q c m. up_found n pid p c l q m)
