-- ===== src/Routes/SyncRepo/Gate.antt =====
-- Which commands a request to update the repository runs.
use convergio_mesh.Prelude.{
  ◌≡◌, ◌⊎◌, refl, Bool, true, false, List, [], ◌∷◌, ◌++◌, Option, Bool-cases, inl, inr,
}
use convergio_mesh.Prelude.Text.{Text, codes}
use convergio_mesh.Prelude.Text.Trim.{trim}
use convergio_mesh.Routes.SyncRepo.{
  Command, show_toplevel, checkout, pull, build, install, Ran, not_started, unsuccessful, success,
  Reply, disabled, pull_failed, git_failed, pulled, is_enabled, is_success, repo_root, update_cli,
  after_pull, update_repo, handle_sync_repo,
}

-- The runs of the handler, by what is run and what is answered.
pub data Update (run : Command → Ran) (root : Text) : List Command → Reply → Type 0 where
  no_git :
      (e : Text)
      → run (pull root) ≡ not_started e
      → Update run root
          (show_toplevel ∷ checkout root ∷ pull root ∷ [])
          (git_failed (codes "git command failed: " ++ e))
  no_pull :
      (e : Text)
      → run (pull root) ≡ unsuccessful e
      → Update run root
          (show_toplevel ∷ checkout root ∷ pull root ∷ [])
          (pull_failed (codes "git pull failed: " ++ e))
  no_build :
      (out : Text)
      → run (pull root) ≡ success out
      → is_success (run (build (root ++ codes "/daemon"))) ≡ false
      → Update run root
          (show_toplevel ∷ checkout root ∷ pull root ∷ build (root ++ codes "/daemon") ∷ [])
          (pulled (trim out) false false)
  built :
      (out : Text) (cli : Bool)
      → run (pull root) ≡ success out
      → is_success (run (build (root ++ codes "/daemon"))) ≡ true
      → is_success (run (install (root ++ codes "/daemon"))) ≡ cli
      → Update run root
          (show_toplevel
            ∷ checkout root
            ∷ pull root
            ∷ build (root ++ codes "/daemon")
            ∷ install (root ++ codes "/daemon")
            ∷ [])
          (pulled (trim out) true cli)

module _ (run : Command → Ran) (root : Text) where
  abbrev Updates : List Command × Reply → Type 0
  Updates r = Update run root (show_toplevel ∷ checkout root ∷ pull root ∷ r.0) r.1

  update_cli-Update :
      (out : Text) (b : Bool)
      → run (pull root) ≡ success out
      → is_success (run (build (root ++ codes "/daemon"))) ≡ b
      → Updates (update_cli run (root ++ codes "/daemon") (trim out) b)
  unfolding update_cli
  update_cli-Update out false e f = no_build out e f
  update_cli-Update out true e f =
      built out (is_success (run (install (root ++ codes "/daemon")))) e f refl

  after_pull-Update : (r : Ran) → run (pull root) ≡ r → Updates (after_pull run root r)
  unfolding after_pull
  after_pull-Update (not_started x) e = no_git x e
  after_pull-Update (unsuccessful x) e = no_pull x e
  after_pull-Update (success out) e =
      update_cli-Update out (is_success (run (build (root ++ codes "/daemon")))) e refl

  update_repo-Update : Update run root (update_repo run root).0 (update_repo run root).1
  unfolding update_repo
  update_repo-Update = after_pull-Update (run (pull root)) refl

-- Without the opt-in no program is run. With it, what is dirty is thrown away and the latest version
-- is pulled; the daemon is built only if the pull succeeds and the CLI is installed only if the build
-- does, and the answer says which of the two succeeded.
pub handle_sync_repo-Update :
    (run : Command → Ran) (enabled : Option Text)
    → ((is_enabled enabled ≡ false) × (handle_sync_repo run enabled ≡ ([], disabled)))
      ⊎ ((is_enabled enabled ≡ true)
          × Update run
              (repo_root (run show_toplevel))
              (handle_sync_repo run enabled).0
              (handle_sync_repo run enabled).1)
unfolding handle_sync_repo
handle_sync_repo-Update run enabled = elim (Bool-cases (is_enabled enabled)) [
  | inl e ↦ inr (e, rw e (update_repo-Update run (repo_root (run show_toplevel))))
  | inr e ↦ inl (e, rw e refl)
]
