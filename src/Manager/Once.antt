-- ===== src/Manager/Once.antt =====
-- A second request for a worker of a project finds the worker of the first.
use claude_email.Prelude.{
  String, true, Option, none, some, List, [], ◌∷◌, ◌≡◌, refl, sym, ap, subst, arith, Bool-cases,
  Option-cases, inl, inr, ℤ,
}
use claude_email.Table.{delete}
use claude_email.Table.Keys.{keyed, row_of, upsert, merged, row_of-upsert}
use claude_email.Effect.{ok}
use claude_email.Manager.{
  Worker, path_of, Kernel, new_worker, worker_argv, spawn, external_or_spawn, ensure_resolved,
  ensure_worker,
}

row_of-delete :
    (k : String) (ws : List Worker) → row_of path_of k (delete (keyed path_of k) ws) ≡ none
row_of-delete k [] = refl
row_of-delete k (w ∷ ws) = ground (arith, row_of-delete k ws)

merged-pid :
    (resolved : String) (pid : ℤ) (o : Option Worker)
    → (merged path_of (record { path = resolved; pid = pid }) (λ w. record w { pid = pid }) o).pid
      ≡ pid
merged-pid resolved pid none = refl
merged-pid resolved pid (some w) = refl

module _ {Os : Type 0} (kernel : Kernel Os) (python_bin : String) where
  -- what the second request finds
  abbrev pub Settled : String → ℤ × (List Worker × Os) → Type 0
  Settled resolved (pid, (ws, os)) =
      kernel.running pid os ≡ true
      → ensure_resolved kernel python_bin resolved (ws, os) ≡ (pid, (ws, os))

  ensure_live :
      (resolved : String) (ws : List Worker) (os : Os) (w : Worker) (pid : ℤ)
      → row_of path_of resolved ws ≡ some w
      → w.pid ≡ pid
      → kernel.running pid os ≡ true
      → ensure_resolved kernel python_bin resolved (ws, os) ≡ (pid, (ws, os))
  unfolding ensure_resolved
  ensure_live resolved ws os w pid e same h = rw (e, ensure_resolved, same, h) refl

  spawn-Settled :
      (resolved : String) (ws : List Worker) (os : Os)
      → Settled resolved (spawn kernel python_bin resolved (ws, os))
  unfolding spawn
  spawn-Settled resolved ws os h =
      let (pid, os') = kernel.popen (worker_argv kernel python_bin resolved) os in
      let fresh = new_worker kernel python_bin resolved pid in
      let merge : Worker → Worker = λ w. record w { pid = pid } in
      ensure_live resolved (upsert path_of resolved fresh merge ws) os'
        (merged path_of fresh merge (row_of path_of resolved ws)) pid
        (row_of-upsert path_of resolved fresh merge ws (λ w. refl) refl)
        (merged-pid resolved pid (row_of path_of resolved ws)) h

  external_or_spawn-Settled :
      (resolved : String) (ws : List Worker) (os : Os)
      → row_of path_of resolved ws ≡ none
      → Settled resolved (external_or_spawn kernel python_bin resolved (ws, os))
  unfolding external_or_spawn ensure_resolved
  external_or_spawn-Settled resolved ws os e =
      elim (Option-cases (kernel.find_external resolved os)) [
        | inl f ↦ rw (f, external_or_spawn) (spawn-Settled resolved ws os)
        | inr (pid, f) ↦
            rw (f, external_or_spawn) (λ h. rw (e, f, ensure_resolved, external_or_spawn) refl)
      ]

  ensure_resolved-Settled :
      (resolved : String) (ws : List Worker) (os : Os)
      → Settled resolved (ensure_resolved kernel python_bin resolved (ws, os))
  unfolding ensure_resolved
  ensure_resolved-Settled resolved ws os =
      let kept = delete (keyed path_of resolved) ws in
      elim (Option-cases (row_of path_of resolved ws)) [
        | inl e ↦
            let q : ensure_resolved kernel python_bin resolved (ws, os)
                ≡ external_or_spawn kernel python_bin resolved (ws, os) =
              rw (e, ensure_resolved) refl in
            subst (Settled resolved) (sym q) (external_or_spawn-Settled resolved ws os e)
        | inr (w, e) ↦ elim (Bool-cases (kernel.running w.pid os)) [
          | inl r ↦
              let q = ensure_live resolved ws os w w.pid e refl r in
              subst (Settled resolved) (sym q) (λ h. q)
          | inr r ↦
              let q : ensure_resolved kernel python_bin resolved (ws, os)
                  ≡ external_or_spawn kernel python_bin resolved (kept, os) =
                rw (e, ensure_resolved, r) refl in
              subst (Settled resolved) (sym q)
                (external_or_spawn-Settled resolved kept os (row_of-delete resolved ws))
        ]
      ]

  -- A request for a worker whose process runs after it is answered with the same process when it is
  -- made again for the same path, and starts nothing: whether this manager knew the worker, pgrep
  -- found it, or it was spawned. The path has to resolve as it did before.
  pub ensure_worker_twice :
      (path resolved : String) (ws ws' : List Worker) (os os' : Os) (pid : ℤ)
      → kernel.resolve path os ≡ some resolved
      → kernel.resolve path os' ≡ some resolved
      → ensure_worker kernel python_bin path (ws, os) ≡ ok (pid, (ws', os'))
      → kernel.running pid os' ≡ true
      → ensure_worker kernel python_bin path (ws', os') ≡ ok (pid, (ws', os'))
  unfolding ensure_worker
  ensure_worker_twice path resolved ws ws' os os' pid a b h r =
      let first : ensure_worker kernel python_bin path (ws, os)
          ≡ ok (ensure_resolved kernel python_bin resolved (ws, os)) =
        rw (a, ensure_worker) refl in
      let q : ensure_resolved kernel python_bin resolved (ws, os) ≡ (pid, (ws', os')) =
        cc (first, h) in
      let settled : Settled resolved (pid, (ws', os')) =
        subst (Settled resolved) q (ensure_resolved-Settled resolved ws os) in
      rw (b, ensure_worker) (ap ok (settled r))
