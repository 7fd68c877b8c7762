-- ===== src/Updater/Backups.antt =====
-- The dumps in the backup folder: which there are, newest first, and which are deleted.
pub mod Newest
use b8mon.Base.{
  ℕ, zero, suc, String, Bool, true, false, ◌&&◌, Option, none, some, List, [], ◌∷◌, leb, string_eq,
  ◌==◌, if◌then◌else◌, drop, starts_with, suffix,
}

pub record Entry : Type 0 where
  pub name : String
  pub size : ℕ
  pub mtime : ℕ

-- `name.startswith(BACKUP_PREFIX) and name.endswith(BACKUP_SUFFIX)`
abbrev pub is_backup : String → Bool
is_backup name = starts_with name "pre-update-" && suffix 8 name == ".dump.gz"

-- a name that `os.stat` fails on is passed over
abbrev pub entries_of : List (String × Option (ℕ × ℕ)) → List Entry
entries_of [] = []
entries_of ((name, none) ∷ names) = entries_of names
entries_of ((name, some (size, mtime)) ∷ names) =
    let rest = entries_of names in
    if is_backup name then record { name = name; size = size; mtime = mtime } ∷ rest else rest

-- `entries.sort(key=lambda e: e["mtime"], reverse=True)`, which is stable
abbrev pub put : Entry → List Entry → List Entry
put e [] = e ∷ []
put e (x ∷ xs) = if leb x.mtime e.mtime then e ∷ x ∷ xs else x ∷ put e xs

unfoldable pub newest_first : List Entry → List Entry
newest_first [] = []
newest_first (e ∷ es) = put e (newest_first es)

unfoldable pub list_backups : List (String × Option (ℕ × ℕ)) → List Entry
unfolding newest_first
list_backups names = newest_first (entries_of names)

-- `entries[ctx.backup_retention:]`
abbrev pub prune_entries : ℕ → List Entry → List Entry
prune_entries retention entries = drop retention entries
