-- ===== src/Recorder/Store.antt =====
-- src/kiroku/recorder/git_store.py: the working tree as a map of files, over a git repository that
-- is a parameter. Failures of the disk and of git commands are not modelled.
use Prim.Native.Char.{Char, code}
use Prim.Native.String.{◌++◌ as ◌<>◌}
use bmu.Prelude.{String, Bool, true, false, ◌||◌, not, Option, none, some, List, [], ◌∷◌}
use bmu.Prelude.{if◌then◌else◌, ◌==◌, nat_eq, string_eq}
use bmu.Text.{is_empty, universal_newlines}
use bmu.Runtime.{row_get, row_set}

abbrev pub Files : Type 0
Files = List (String × String)

pub record Git : Type 1 where
  pub Repo : Type 0
  -- `index.add(paths)`, which reads the files.
  pub index_add : Repo → Files → List String → Repo
  -- `bool(index.diff("HEAD"))`
  pub index_differs : Repo → Bool
  -- `index.commit(message).hexsha`
  pub index_commit : Repo → String → String × Repo
  -- `hashlib.sha256(text.encode()).hexdigest()`, and `str.isalnum` of a character.
  pub sha256 : String → String
  pub is_alnum : Char → Bool

module _ (git : Git) where
  unfoldable pub keeps : Char → Bool
  keeps c = git.is_alnum c || code c == b'-' || code c == b'_' || code c == b'.'

  -- `_slugify`
  unfoldable pub slugify : String → String
  unfolding keeps
  slugify String.[] = ""
  slugify (String.◌∷◌ c s) = String.◌∷◌ (if keeps c then c else "_") (slugify s)

  -- `str(Path(folder) / name)`, for a folder and a name without a slash.
  abbrev path_join : String → String → String
  path_join folder name =
      if is_empty folder then name else if folder == "." then name else folder <> ("/" <> name)

  unfoldable pub file_path : String → String → String
  unfolding slugify
  file_path group device = path_join (slugify group) (slugify device <> ".cfg")

  pub record Store : Type 0 where
    pub files : Files
    pub repo : git.Repo

  pub record Staged : Type 0 where
    pub changed : Bool
    pub sha : String
    pub store : Store

  abbrev written : Store → String → String → Store
  written s path content = record s { files = row_set path content s.files }

  unfoldable pub stage : Store → String → String → String → Staged
  unfolding row_get row_set universal_newlines
  stage s group device content =
      let sha = git.sha256 content in
      let path = file_path group device in
      elim (row_get path s.files) [
        | none ↦ record { changed = true; sha = sha; store = written s path content }
        | some existing ↦
            if git.sha256 (universal_newlines existing) == sha
            then record { changed = false; sha = sha; store = s }
            else record { changed = true; sha = sha; store = written s path content }
      ]

  -- The commit's sha, if there is a commit, and the store.
  unfoldable pub commit_batch : Store → List String → String → Option String × Store
  commit_batch s [] message = (none, s)
  commit_batch s (p ∷ ps) message =
      let repo = git.index_add s.repo s.files (p ∷ ps) in
      if not (git.index_differs repo)
      then (none, record s { repo = repo })
      else let (sha, repo') = git.index_commit repo message in (some sha, record s { repo = repo' })

  pub record Written : Type 0 where
    pub commit_sha : Option String
    pub sha : String
    pub store : Store

  unfoldable pub write : Store → String → String → String → String → Written
  unfolding stage file_path
  write s group device content author_note =
      let staged = stage s group device content in
      if not staged.changed
      then record { commit_sha = none; sha = staged.sha; store = staged.store }
      else let repo =
          git.index_add staged.store.repo staged.store.files (file_path group device ∷ []) in
        let subject = "backup: " <> (group <> ("/" <> device)) in
        let message =
          if is_empty author_note then subject else subject <> ("\n\n" <> author_note) in
        let (commit, repo') = git.index_commit repo message in
        record {
          commit_sha = some commit;
          sha = staged.sha;
          store = record { files = staged.store.files; repo = repo' };
        }
