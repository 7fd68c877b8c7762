-- ===== src/Updater/Tests.antt =====
-- A machine that counts the commands run on it, an update of it, and a folder with three dumps.
use b8mon.Base.{
  ◌⊎◌, length, min, All, ◌≤◌, ℕ, suc, String, ◌≡◌, refl, true, Option, none, some, List, [], ◌∷◌,
  take, keep, if◌then◌else◌,
}
use b8mon.Updater.Restart.{status_of, IsPrepared, migrated, run_update-restart}
use b8mon.Updater.{Act, ok, raises, pending, finished, broken, run_update}
use b8mon.Updater.Context.{Ctx}
use b8mon.Updater.Steps.{default_steps, step_restart}
use b8mon.Updater.Backups.{entries_of, list_backups, prune_entries, newest_first}
use b8mon.Updater.Backups.Newest.{Distinct, names_of, stays, list_backups-prune}
use b8mon.Updater.Chain.{statuses, execute, all_done, run_update-execute}

abbrev ctx : Ctx ℕ
ctx = record {
  run_cmd = λ args timeout cwd m.
      (ok (record { returncode = 0; stdout = "refs/heads/main"; stderr = "" }), suc m);
  run_dump = λ args dest m. (ok (record { returncode = 0; size = 1; stderr = "" }), suc m);
  now = λ m. ("2026-01-01T00:00:00", m);
  disk_free = λ path m. (ok 5000000000, m);
  path_exists = λ path m. true;
  make_dirs = λ path m. (ok tt, m);
  list_dir = λ path m. none;
  remove = λ path m. m;
  gigabytes = λ n. "4.7";
  megabytes = λ n. "0.0";
  repo_path = "/opt/repo";
  compose_file = "docker-compose.yml";
  compose_project = "vigil";
  backup_dir = "/backups";
  backup_retention = 3;
  db_container = "postgres";
  db_user = "user";
  db_name = "db";
}

run_update-restart_example :
    let r = run_update ctx.now "1" (default_steps ctx) 0 in
    ((status_of "restart" r.state.steps ≡ some pending) × (r.state.status ≡ broken))
    ⊎ (IsPrepared ctx 0 × (r.machine ≡ (ctx.now (step_restart ctx (migrated ctx 0)).1).1))
run_update-restart_example = run_update-restart ctx "1" 0

abbrev steps : List (String × Act ℕ String)
steps =
    ("pull", λ m. (ok "pulled", suc m))
    ∷ ("build", λ m. (raises "no space left", suc m))
    ∷ ("restart", λ m. (ok "restarted", suc m))
    ∷ []

run_update-execute_example :
    let r = run_update ctx.now "1" steps 0 in
    let (outcome, m') = execute steps (ctx.now 0).1 in
    (statuses r.state.steps ≡ outcome)
    × (r.state.status ≡ (if all_done outcome then finished else broken))
    × (r.machine ≡ (ctx.now m').1)
run_update-execute_example = run_update-execute ctx.now "1" steps 0 (refl, (refl, (refl, tt)))

abbrev folder : List (String × Option (ℕ × ℕ))
folder =
    ("pre-update-1.dump.gz", some (10, 100))
    ∷ ("notes.txt", some (1, 500))
    ∷ ("pre-update-3.dump.gz", some (10, 300))
    ∷ ("pre-update-2.dump.gz", some (10, 200))
    ∷ []

folder-Distinct : Distinct (list_backups folder)
unfolding list_backups newest_first
folder-Distinct = (refl, (refl, (refl, tt)))

list_backups-prune_example :
    let pruned = prune_entries 2 (list_backups folder) in
    let left = list_backups (keep (λ x. stays (names_of pruned) x.0) folder) in
    (left ≡ take 2 (list_backups folder))
    × (length left ≡ min 2 (length (entries_of folder)))
    × All (λ e. All (λ f. f.mtime ≤ e.mtime) pruned) left
list_backups-prune_example = list_backups-prune 2 folder folder-Distinct
