-- ===== src/Manager/Tests.antt =====
-- A manager whose kernel numbers its processes.
use claude_email.Prelude.{ℕ, suc, true, none, some, List, [], ◌∷◌, pos, ◌≡◌, refl}
use claude_email.Effect.{ok}
use claude_email.Manager.{Kernel, Worker, ensure_worker}

abbrev kernel : Kernel ℕ
kernel = record {
  resolve = λ path os. some path;
  running = λ pid os. true;
  find_external = λ path os. none;
  popen = λ argv os. (pos os, suc os);
}

abbrev spawned : List Worker
spawned = record { path = "/p"; pid = pos 7 } ∷ []

first : ensure_worker kernel "python" "/p" ([], 7) ≡ ok (pos 7, (spawned, 8))
unfolding ensure_worker
first = refl
