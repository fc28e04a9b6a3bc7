-- ===== src/Routes/SyncRepo.antt =====
-- crates/convergio-mesh/src/routes_sync_repo.rs: handle_sync_repo. The programs that it runs are a
-- parameter; the commands are kept in the order in which they are run.
pub mod Gate
use convergio_mesh.Prelude.{
  ℕ, Bool, true, false, List, [], ◌∷◌, ◌++◌, Option, none, some, ◌||◌, if◌then◌else◌, or_else,
}
use convergio_mesh.Prelude.Text.{Text, codes, text_eq, eq_ignore_case}
use convergio_mesh.Prelude.Text.Trim.{trim}

-- Each command with the directory it is run in. `show_toplevel` runs where the daemon runs.
pub data Command : Type 0 where
  show_toplevel : Command
  checkout pull build install : Text → Command

-- What running a program comes to: it cannot be started, it ends with a status that is no success and
-- some text on its standard error, or it succeeds with some text on its standard output.
pub data Ran : Type 0 where
  not_started : Text → Ran
  unsuccessful : Text → Ran
  success : Text → Ran

pub data Reply : Type 0 where
  disabled : Reply
  pull_failed : Text → Reply
  git_failed : Text → Reply
  -- The text of git, and whether the build and the update of the CLI succeeded.
  pulled : Text → Bool → Bool → Reply

-- CONVERGIO_SYNC_REPO_ENABLED
unfoldable pub is_enabled : Option Text → Bool
unfolding text_eq eq_ignore_case
is_enabled none = false
is_enabled (some v) = text_eq v (codes "1") || eq_ignore_case v (codes "true")

abbrev pub is_success : Ran → Bool
is_success (success out) = true
is_success _ = false

-- The output of a program, as from_utf8_lossy reads it.
unfoldable pub repo_root : Ran → Text
unfolding trim
repo_root (success out) = trim out
repo_root _ = codes "."

module _ (run : Command → Ran) where
  -- The CLI is installed only if the build succeeds.
  unfoldable pub update_cli : Text → Text → Bool → List Command × Reply
  update_cli daemon_dir out false = (build daemon_dir ∷ [], pulled out false false)
  update_cli daemon_dir out true = (
    build daemon_dir ∷ install daemon_dir ∷ [],
    pulled out true (is_success (run (install daemon_dir))),
  )

  unfoldable pub after_pull : Text → Ran → List Command × Reply
  unfolding update_cli trim
  after_pull root (not_started e) = ([], git_failed (codes "git command failed: " ++ e))
  after_pull root (unsuccessful stderr) = ([], pull_failed (codes "git pull failed: " ++ stderr))
  after_pull root (success stdout) =
      let daemon_dir = root ++ codes "/daemon" in
      update_cli daemon_dir (trim stdout) (is_success (run (build daemon_dir)))

  -- What is dirty in the repository is thrown away before the pull.
  unfoldable pub update_repo : Text → List Command × Reply
  unfolding after_pull
  update_repo root =
      let rest = after_pull root (run (pull root)) in
      (show_toplevel ∷ checkout root ∷ pull root ∷ rest.0, rest.1)

  unfoldable pub handle_sync_repo : Option Text → List Command × Reply
  unfolding is_enabled repo_root update_repo
  handle_sync_repo enabled =
      if is_enabled enabled then update_repo (repo_root (run show_toplevel)) else ([], disabled)
