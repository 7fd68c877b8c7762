-- ===== src/Updater/Context.antt =====
-- sidecar/orchestrator.py, what the steps work with: the functions and settings of `Ctx`, the
-- constants, and small helpers on paths and output. A process's return code is only compared with
-- 0, so one below 0 is written as a positive one. Lines of output end with a line feed.
use b8mon.Base.{
  ℕ, String, Bool, not, ◌||◌, Option, List, [], ◌∷◌, map, nat_eq, string_eq, ◌==◌, if◌then◌else◌,
  keep, f_string, split, strip, suffix, starts_with,
}
use b8mon.Updater.{Act}

pub record CmdResult : Type 0 where
  pub returncode : ℕ
  pub stdout : String
  pub stderr : String

pub record DumpResult : Type 0 where
  pub returncode : ℕ
  pub size : ℕ
  pub stderr : String

pub record Ctx (M : Type 0) : Type 0 where
  pub run_cmd : List String → ℕ → Option String → Act M CmdResult
  pub run_dump : List String → String → Act M DumpResult
  pub now : M → String × M
  pub disk_free : String → Act M ℕ
  pub path_exists : String → M → Bool
  -- `os.makedirs`, and `os.listdir` with `os.stat` of each name
  pub make_dirs : String → Act M (Unit {0})
  pub list_dir : String → M → Option (List (String × Option (ℕ × ℕ)))
  -- `os.remove`, whether or not it fails
  pub remove : String → M → M
  -- a number of bytes in gigabytes or megabytes, with one decimal place
  pub gigabytes : ℕ → String
  pub megabytes : ℕ → String
  pub repo_path : String
  pub compose_file : String
  pub compose_project : String
  pub backup_dir : String
  pub backup_retention : ℕ
  pub db_container : String
  pub db_user : String
  pub db_name : String

abbrev pub expected_ref : String
expected_ref = "refs/heads/main"

abbrev pub min_free_bytes : ℕ
min_free_bytes = 2147483648

abbrev pub docker_socket : String
docker_socket = "/var/run/docker.sock"

abbrev pub build_services : List String
build_services = "nodeglow" ∷ "frontend" ∷ []

-- `os.path.join(folder, name)`
abbrev pub join_path : String → String → String
join_path folder name =
    if starts_with name "/"
    then name
    else if folder == "" || suffix 1 folder == "/"
    then f_string (folder ∷ name ∷ [])
    else f_string (folder ∷ "/" ∷ name ∷ [])

-- `[ln.strip() for ln in text.splitlines() if ln.strip()]`
abbrev pub full_lines : String → List String
full_lines text = keep (λ l. not (l == "")) (map strip (split 10 text))

abbrev pub failed : CmdResult → Bool
failed r = not (r.returncode == 0)

-- `text.strip() or d`
abbrev pub stripped_or : String → String → String
stripped_or text d = if strip text == "" then d else strip text

abbrev pub last_line : String → List String → String
last_line l [] = l
last_line l (m ∷ ms) = last_line m ms
