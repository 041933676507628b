-- ===== src/Recorder/Staging.antt =====
-- What `stage` of src/kiroku/recorder/git_store.py does with the same text again.
use bmu.Prelude.{String, ◌≡◌, false, some, [], ◌∷◌, arith}
use bmu.Prelude.{◌==◌, string_eq, Option-cases, Bool-cases, inl, inr, beq_refl}
use bmu.Text.{universal_newlines}
use bmu.Runtime.{row_get, row_set}
use bmu.Recorder.Store.{Files, Git, Store, stage, file_path}

row_get-row_set :
    (path content : String) (files : Files)
    → row_get path (row_set path content files) ≡ some content
unfolding row_get row_set
row_get-row_set path content [] = ground (arith, beq_refl path)
row_get-row_set path content (f ∷ files) =
    ground (arith, beq_refl path, row_get-row_set path content files)

module _ (git : Git) where
  -- A text without carriage returns, staged twice: the second time finds it unchanged, and leaves
  -- the store as it is.
  pub stage_again :
      (s : Store git) (group device content : String)
      → universal_newlines content ≡ content
      → stage git (stage git s group device content).store group device content ≡ record {
        changed = false;
        sha = git.sha256 content;
        store = (stage git s group device content).store;
      }
  unfolding stage
  stage_again s group device content plain =
      let path = file_path git group device in
      elim (Option-cases (row_get path s.files)) [
        | inl absent ↦ ground (
          arith,
          absent,
          plain,
          row_get-row_set path content s.files,
          beq_refl (git.sha256 content),
        )
        | inr (old, there) ↦
            elim (Bool-cases (git.sha256 (universal_newlines old) == git.sha256 content)) [
              | inl same ↦ ground (arith, there, same)
              | inr new ↦ ground (
                arith,
                there,
                new,
                plain,
                row_get-row_set path content s.files,
                beq_refl (git.sha256 content),
              )
            ]
      ]
