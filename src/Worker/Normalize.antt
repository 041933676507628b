-- ===== src/Worker/Normalize.antt =====
-- `_strip_echo` and `_normalize_config` of src/kiroku/worker/scrapli_runner.py.
use bmu.Prelude.{String, List, [], ◌∷◌, map, if◌then◌else◌, ◌==◌, string_eq}
use bmu.Text.{is_empty, strip, rstrip, splitlines, universal_newlines, join}
use bmu.Runtime.{Runtime}

abbrev pub ansi_escape : String
ansi_escape = "\\x1B(?:[@-Z\\\\-_]|\\[[0-?]*[ -/]*[@-~])"

unfoldable pub strip_echo : String → String → String
unfolding splitlines strip
strip_echo text cmd = elim (splitlines text) [
  | [] ↦ text
  | line ∷ rest ↦ if strip line == strip cmd then join "\n" rest else text
]

-- `while lines and not lines[-1]: lines.pop()`
unfoldable pub drop_blank_end : List String → List String
drop_blank_end [] = []
drop_blank_end (line ∷ lines) = elim (drop_blank_end lines) [
  | [] ↦ if is_empty line then [] else line ∷ []
  | l ∷ ls ↦ line ∷ l ∷ ls
]

-- The two replacements of carriage returns are together what `universal_newlines` does.
unfoldable pub normalize_config : Runtime → String → String
normalize_config py text =
    let plain = universal_newlines (py.re_sub ansi_escape "" text) in
    join "\n" (drop_blank_end (map rstrip (splitlines plain)))
