-- ===== src/Updater/Steps.antt =====
-- The six steps of an update (sidecar/orchestrator.py).
use b8mon.Base.{
  ℕ, ◌-◌, min, String, not, ◌||◌, none, some, List, [], ◌∷◌, ltb, nat_eq, string_eq, ◌==◌,
  if◌then◌else◌, length, take, f_string, join, decimal, split, strip, suffix,
}
use b8mon.Updater.{Result, ok, raises, Act, ◌>>=◌, ◌>>◌, pure, raise_if, max_error_chars}
use b8mon.Updater.Backups.{Entry, list_backups, prune_entries}
use b8mon.Updater.Context.{
  CmdResult, DumpResult, Ctx, expected_ref, min_free_bytes, docker_socket, build_services,
  join_path, full_lines, failed, stripped_or, last_line,
}

module _ {M : Type 0} (ctx : Ctx M) where
  pub git : List String → ℕ → Act M CmdResult
  git args timeout = ctx.run_cmd ("git" ∷ args) timeout (some ctx.repo_path)

  pub compose : List String → ℕ → Act M CmdResult
  compose args timeout =
      ctx.run_cmd
        ("docker" ∷ "compose" ∷ "-p" ∷ ctx.compose_project ∷ "-f" ∷ ctx.compose_file ∷ args) timeout
        (some ctx.repo_path)

  abbrev require_path : String → String → Act M (Unit {0})
  require_path path text m = raise_if (not (ctx.path_exists path m)) text m

  abbrev dirty_text : List String → String
  dirty_text entries = f_string (
      "Working tree is dirty, refusing to update: "
      ∷ join ", " (take 5 entries)
      ∷ (if ltb 5 (length entries)
          then f_string (" (+" ∷ decimal (length entries - 5) ∷ " more)" ∷ [])
          else "")
      ∷ [])

  pub step_preflight : Act M String
  unfolding git
  step_preflight = do
    require_path (join_path ctx.repo_path ".git")
        (f_string ("Repository not mounted at " ∷ ctx.repo_path ∷ []))
    require_path docker_socket "Docker socket not available"
    free ← ctx.disk_free ctx.repo_path
    raise_if (ltb free min_free_bytes)
        (f_string ("Not enough free disk space: " ∷ ctx.gigabytes free ∷ " GB (need 2 GB)" ∷ []))
    status ← git ("status" ∷ "--porcelain" ∷ []) 10
    raise_if (failed status) "Unable to read git status"
    raise_if (not (strip status.stdout == "")) (dirty_text (full_lines status.stdout))
    head ← git ("symbolic-ref" ∷ "-q" ∷ "HEAD" ∷ []) 10
    raise_if (failed head || not (strip head.stdout == expected_ref)) (
        f_string (
          "HEAD is not on "
          ∷ expected_ref
          ∷ " (got "
          ∷ stripped_or head.stdout "detached"
          ∷ ")"
          ∷ []))
    inspect ←
        ctx.run_cmd ("docker" ∷ "inspect" ∷ "-f" ∷ "{{.State.Running}}" ∷ ctx.db_container ∷ []) 15
          none
    raise_if (failed inspect || not (strip inspect.stdout == "true"))
        (f_string ("Database container " ∷ ctx.db_container ∷ " is not running" ∷ []))
    pure (
        f_string
          (ctx.gigabytes free ∷ " GB free, " ∷ ctx.db_container ∷ " running, HEAD on main" ∷ []))

  -- the dumps there are, newest first
  abbrev backups : M → List Entry
  backups m = elim (ctx.list_dir ctx.backup_dir m) [ none ↦ [] | some names ↦ list_backups names ]

  abbrev remove_each : List Entry → M → M
  remove_each [] m = m
  remove_each (e ∷ es) m = remove_each es (ctx.remove (join_path ctx.backup_dir e.name) m)

  -- the count kept
  pub prune_backups : M → ℕ × M
  prune_backups m =
      let entries = backups m in
      (
        min (length entries) ctx.backup_retention,
        remove_each (prune_entries ctx.backup_retention entries) m,
      )

  abbrev pruned : Act M ℕ
  pruned m = let (kept, m') = prune_backups m in (ok kept, m')

  abbrev read_now : Act M String
  read_now m = let (time, m') = ctx.now m in (ok time, m')

  abbrev unavailable : Result (Unit {0}) → Result (Unit {0})
  unavailable (ok t) = ok t
  unavailable (raises text) = raises (f_string ("Backup directory unavailable: " ∷ text ∷ []))

  abbrev make_backup_dir : Act M (Unit {0})
  make_backup_dir m =
      (unavailable (ctx.make_dirs ctx.backup_dir m).0, (ctx.make_dirs ctx.backup_dir m).1)

  -- a dump that failed is removed
  abbrev check_dump : String → DumpResult → Act M (Unit {0})
  check_dump dest result m =
      if not (result.returncode == 0)
      then (
        raises (f_string ("pg_dump failed: " ∷ suffix max_error_chars result.stderr ∷ [])),
        ctx.remove dest m,
      )
      else (ok tt, m)

  pub step_backup : Act M String
  unfolding prune_backups
  step_backup = do
    make_backup_dir
    time ← read_now
    let name = f_string ("pre-update-" ∷ join "-" (split 58 time) ∷ ".dump.gz" ∷ [])
    let dest = join_path ctx.backup_dir name
    result ←
        ctx.run_dump
          ("docker" ∷ "exec" ∷ ctx.db_container ∷ "pg_dump" ∷ "-U" ∷ ctx.db_user ∷ "-Fc"
            ∷ ctx.db_name ∷ [])
          dest
    check_dump dest result
    kept ← pruned
    pure (
        f_string
          (name ∷ " (" ∷ ctx.megabytes result.size ∷ " MB), pruned " ∷ decimal kept ∷ " kept" ∷ []))

  pub step_pull : Act M String
  unfolding git
  step_pull = do
    before ← git ("rev-parse" ∷ "--short" ∷ "HEAD" ∷ []) 10
    raise_if (failed before) "Unable to resolve HEAD before pull"
    let old_sha = strip before.stdout
    pull ← git ("pull" ∷ "origin" ∷ "main" ∷ []) 120
    raise_if (failed pull)
        (f_string ("git pull failed: " ∷ suffix max_error_chars pull.stderr ∷ []))
    head ← git ("symbolic-ref" ∷ "-q" ∷ "HEAD" ∷ []) 10
    raise_if (failed head || not (strip head.stdout == expected_ref)) (
        f_string (
          "HEAD moved to unexpected ref after pull ("
          ∷ stripped_or head.stdout "detached"
          ∷ ")"
          ∷ []))
    after ← git ("rev-parse" ∷ "--short" ∷ "HEAD" ∷ []) 10
    raise_if (failed after) "Unable to resolve HEAD after pull"
    let new_sha = strip after.stdout
    count ← git ("rev-list" ∷ "--count" ∷ f_string (old_sha ∷ "..HEAD" ∷ []) ∷ []) 10
    pure (
        f_string (
          old_sha
          ∷ " → "
          ∷ new_sha
          ∷ " ("
          ∷ (if count.returncode == 0 then strip count.stdout else "?")
          ∷ " commits)"
          ∷ []))

  pub step_build : Act M String
  unfolding compose
  step_build = do
    result ← compose ("build" ∷ build_services) 1800
    raise_if (failed result)
        (f_string ("docker compose build failed: " ∷ suffix max_error_chars result.stderr ∷ []))
    pure (f_string ("built " ∷ join ", " build_services ∷ []))

  abbrev migrate_detail : List String → String
  migrate_detail [] = "schema at head"
  migrate_detail (l ∷ ls) = suffix 200 (last_line l ls)

  pub step_migrate : Act M String
  unfolding compose
  step_migrate = do
    result ←
        compose
          ("run" ∷ "--rm" ∷ "--no-deps" ∷ "nodeglow" ∷ "alembic" ∷ "-c" ∷ "alembic.ini" ∷ "upgrade"
            ∷ "head" ∷ [])
          600
    raise_if (failed result)
        (f_string ("alembic upgrade failed: " ∷ suffix max_error_chars result.stderr ∷ []))
    pure (migrate_detail (full_lines result.stdout))

  pub step_restart : Act M String
  unfolding compose
  step_restart = do
    result ← compose ("up" ∷ "-d" ∷ "--no-deps" ∷ build_services) 900
    raise_if (failed result)
        (f_string ("docker compose up failed: " ∷ suffix max_error_chars result.stderr ∷ []))
    pure (f_string (join ", " build_services ∷ " restarted" ∷ []))

  abbrev pub default_steps : List (String × Act M String)
  default_steps =
      ("preflight", step_preflight)
      ∷ ("backup", step_backup)
      ∷ ("pull", step_pull)
      ∷ ("build", step_build)
      ∷ ("migrate", step_migrate)
      ∷ ("restart", step_restart)
      ∷ []
