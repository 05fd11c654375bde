-- ===== src/Universes/Senders.antt =====
-- No address belongs to two universes.
use claude_email.Prelude.{
  String, false, List, [], ◌∷◌, ◌++◌, map, str_eq, any, ◌≡◌, inl, inr, refl, subst, ap, All,
  Bool-cases, arith, eq_iff, if◌then◌else◌,
}
use mathlib.Core.List.{append-nil}
use claude_email.Universes.{
  Universe, all_senders, Built, built, key_error, value_error, ◌>>=◌, Env, collect, first_and_rest,
  parse_senders, primary_universe, add_test, test_universe, build_universes, credentials_of, demand,
  universe_of, get_or,
}

-- Each text differs from those behind it.
abbrev pub AllDiffer : List String → Type 0
AllDiffer [] = Unit
AllDiffer (x ∷ xs) = (any (str_eq x) xs ≡ false) × AllDiffer xs

-- What a step of a chain of such calls has returned.
pub >>=-eq-built :
    {A B : Type 0} (m : Built A) (f : A → Built B) {b : B}
    → (m >>= f) ≡ built b
    → (a : A) × (m ≡ built a) × (f a ≡ built b)
>>=-eq-built (built a) f h = (a, refl, h)
>>=-eq-built (key_error n) f h = cc
>>=-eq-built (value_error m) f h = cc

module _ (strip lower repr : String → String) where
  -- the addresses of a text: its parts that are not blank
  abbrev pub addresses : List String → List String
  addresses [] = []
  addresses (part ∷ parts) =
      let rest = addresses parts in if str_eq (strip part) "" then rest else strip part ∷ rest

  -- the key of an address is not among those of `seen`
  abbrev pub IsNew : List String → String → Type 0
  IsNew seen x = any (str_eq (lower x)) seen ≡ false

  differ-head :
      (p : String) (seen xs : List String)
      → All (IsNew (lower p ∷ seen)) xs
      → (any (str_eq (lower p)) (map lower xs) ≡ false) × All (IsNew seen) xs
  differ-head p seen [] h = (refl, tt)
  differ-head p seen (x ∷ xs) h =
      let (d, r) = differ-head p seen xs h.1 in
      (
        ground (arith, d, h.0, eq_iff (lower x) (lower p), eq_iff (lower p) (lower x)),
        (ground (arith, h.0), r),
      )

  collect_lem :
      (seen parts xs : List String)
      → collect strip lower repr seen parts ≡ built xs
      → (xs ≡ addresses parts) × All (IsNew seen) xs × AllDiffer (map lower xs)
  unfolding collect
  collect_lem seen [] xs h =
      let q : [] ≡ xs = cc in
      subst (λ ys. (ys ≡ []) × All (IsNew seen) ys × AllDiffer (map lower ys)) q (refl, tt, tt)
  collect_lem seen (part ∷ parts) xs h = elim (Bool-cases (str_eq (strip part) "")) [
    | inl e ↦ rw e (collect_lem seen parts xs (rw (e, collect) at h))
    | inr e ↦
        let p = strip part in
        elim (Bool-cases (any (str_eq (lower p)) seen)) [
          | inl k ↦ ground (arith, e, k)
          | inr k ↦
              let (rest, m, f) =
                >>=-eq-built (collect strip lower repr (lower p ∷ seen) parts)
                  (λ rest. built (p ∷ rest)) (rw (e, k, collect) at h) in
              let (listed, new, differ) = collect_lem (lower p ∷ seen) parts rest m in
              let (first, others) = differ-head p seen rest new in
              let q : p ∷ rest ≡ xs = cc (f) in
              rw e (
                subst
                  (λ ys.
                    (ys ≡ p ∷ addresses parts) × All (IsNew seen) ys × AllDiffer (map lower ys))
                  q (ap (◌∷◌ p) listed, (k, others), (first, differ)))
        ]
  ]

  parse_senders_lem :
      (parts : List String) (canonical : String) (aliases : List String)
      → parse_senders strip lower repr parts ≡ built (canonical, aliases)
      → AllDiffer (map lower (canonical ∷ aliases))
  unfolding parse_senders
  parse_senders_lem parts canonical aliases h =
      let (xs, m, f) = >>=-eq-built (collect strip lower repr [] parts) first_and_rest h in
      let (listed, new, differ) = collect_lem [] parts xs m in
      subst (λ ys. AllDiffer (map lower ys)) (both xs f) differ
    where
      both :
          (xs : List String)
          → first_and_rest xs ≡ built (canonical, aliases)
          → xs ≡ canonical ∷ aliases
      both [] f = cc
      both (x ∷ xs) f = cc

  any-append_last :
      (x y : String) (xs : List String)
      → any (str_eq x) (map lower xs) ≡ false
      → str_eq x (lower y) ≡ false
      → any (str_eq x) (map lower (xs ++ y ∷ [])) ≡ false
  any-append_last x y [] h k = ground (arith, k)
  any-append_last x y (z ∷ xs) h k = ground (arith, any-append_last x y xs)

  differ-last :
      (y : String) (xs : List String)
      → AllDiffer (map lower xs)
      → any (str_eq (lower y)) (map lower xs) ≡ false
      → AllDiffer (map lower (xs ++ y ∷ []))
  differ-last y [] h k = (refl, tt)
  differ-last y (x ∷ xs) h k = (
    any-append_last (lower x) y xs h.0
        (ground (arith, eq_iff (lower x) (lower y), eq_iff (lower y) (lower x))),
    differ-last y xs h.1 (ground arith),
  )

  abbrev pub all_addresses : List Universe → List String
  all_addresses [] = []
  all_addresses (u ∷ us) = all_senders u ++ all_addresses us

  -- Each universe has the credentials of its own environment.
  abbrev pub OwnCredentials : (env test_env : Env) → List Universe → Type 0
  OwnCredentials env test_env (p ∷ []) = p.credentials ≡ credentials_of env
  OwnCredentials env test_env (p ∷ t ∷ []) =
      (p.credentials ≡ credentials_of env) × (t.credentials ≡ credentials_of test_env)
  OwnCredentials env test_env _ = ⊥

  -- What is shown of the list of universes.
  abbrev pub IsIsolated : (env test_env : Env) → List Universe → Type 0
  IsIsolated env test_env us =
      AllDiffer (map lower (all_addresses us)) × OwnCredentials env test_env us

  module _ (split_commas : String → List String) (repo_root : String) where
    universe_of_lem :
        (env : Env) (canonical : String) (aliases : List String) (u : Universe)
        → universe_of strip lower repr split_commas repo_root env (canonical, aliases) ≡ built u
        → (u.sender ≡ canonical) × (u.aliases ≡ aliases) × (u.credentials ≡ credentials_of env)
    unfolding universe_of
    universe_of_lem env canonical aliases u h = ground arith

    primary_universe_lem :
        (env : Env) (u : Universe)
        → primary_universe strip lower repr split_commas repo_root env ≡ built u
        → AllDiffer (map lower (all_senders u)) × (u.credentials ≡ credentials_of env)
    unfolding primary_universe
    primary_universe_lem env u h =
        let (raw, e, f) =
          >>=-eq-built (demand env "AUTHORIZED_SENDER")
            (λ raw.
              parse_senders strip lower repr (split_commas raw)
              >>= universe_of strip lower repr split_commas repo_root env)
            h in
        let (senders, m, g) =
          >>=-eq-built (parse_senders strip lower repr (split_commas raw))
            (universe_of strip lower repr split_commas repo_root env) f in
        let (s, a, c) = universe_of_lem env senders.0 senders.1 u g in
        (rw (s, a) (parse_senders_lem (split_commas raw) senders.0 senders.1 m), c)

    test_universe_lem :
        (env test_env : Env) (sender : String) (u : Universe)
        → test_universe strip lower repr split_commas repo_root env test_env sender ≡ built u
        → (all_senders u ≡ sender ∷ []) × (u.credentials ≡ credentials_of test_env)
    unfolding test_universe
    test_universe_lem env test_env sender u h = ground arith

    add_test_lem :
        (env test_env : Env) (p : Universe) (us : List Universe)
        → add_test strip lower repr split_commas repo_root env test_env p ≡ built us
        → AllDiffer (map lower (all_senders p))
        → p.credentials ≡ credentials_of env
        → IsIsolated env test_env us
    unfolding add_test test_universe
    add_test_lem env test_env p us h d c =
        let sender = strip (get_or test_env "SENDER" "") in
        elim (Bool-cases (str_eq sender "")) [
          | inl e ↦
              let q : p ∷ [] ≡ us = cc (rw (e, add_test) at h) in
              subst (IsIsolated env test_env) q (rw append-nil d, c)
          | inr e ↦ elim (Bool-cases (any (str_eq (lower sender)) (map lower (all_senders p)))) [
            | inl k ↦ ground (arith, e, k)
            | inr k ↦
                let (t, m, f) =
                  >>=-eq-built
                    (test_universe strip lower repr split_commas repo_root env test_env sender)
                    (λ t. built (p ∷ t ∷ [])) (rw (e, k, add_test) at h) in
                let (a, own) = test_universe_lem env test_env sender t m in
                let q : p ∷ t ∷ [] ≡ us = cc (f) in
                subst (IsIsolated env test_env) q
                  (rw (append-nil, a) (differ-last sender (all_senders p) d k), (c, own))
          ]
        ]

    -- The universes of an environment share no address, in whatever case it is written, none names
    -- an address twice, and each has the credentials of its own environment.
    pub build_universes-OwnCredentials :
        (env test_env : Env) (us : List Universe)
        → build_universes strip lower repr split_commas repo_root env test_env ≡ built us
        → IsIsolated env test_env us
    unfolding build_universes
    build_universes-OwnCredentials env test_env us h =
        let (p, m, f) =
          >>=-eq-built (primary_universe strip lower repr split_commas repo_root env)
            (add_test strip lower repr split_commas repo_root env test_env) h in
        let (d, c) = primary_universe_lem env p m in add_test_lem env test_env p us f d c
