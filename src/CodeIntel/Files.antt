-- ===== src/CodeIntel/Files.antt =====
-- Files and paths as codeintel (packages/infra-codeintel) sees them: what it asks of the disk and of
-- pathlib, and assembly/hydration.py, which reads the source of a chunk.
use praecepta.Prelude.{
  ℕ, zero, suc, ◌-◌, String, Bool, List, [], ◌∷◌, Option, none, some, if◌then◌else◌, length, take,
}
use praecepta.Text.{append}
use praecepta.Errors.{Result, ok, err, unicode_error}
use praecepta.CodeIntel.{CodeChunk}

-- what reading a file as UTF-8 gives: its lines with their ends, an OSError, or a UnicodeDecodeError
pub data Read : Type 0 where
  read : List String → Read
  missing undecodable : Read

pub record Files : Type 0 where
  -- an OSError for a path that is too long or may not be looked at
  pub exists : String → Result Bool
  pub read_text : String → Read
  -- the number of lines read with `errors="replace"`; none for an OSError
  pub count_lines : String → Option ℕ
  pub is_absolute : String → Bool
  -- `root / path`
  pub join : (root path : String) → String
  -- `path.relative_to(root)`; none for a ValueError
  pub relative_to : (path root : String) → Option String
  -- `path.name`
  pub base_name : String → String

-- `list[n:]`
abbrev pub drop {ℓ} : {A : Type ℓ} → ℕ → List A → List A
drop zero xs = xs
drop (suc n) [] = []
drop (suc n) (x ∷ xs) = drop n xs

-- `"".join(lines)`
unfoldable pub joined : List String → String
joined [] = ""
joined (l ∷ ls) = append l (joined ls)

-- `lines[start_line - 1 : end_line]`, where a start of -1 is the last line.
unfoldable pub lines_between : (start_line end_line : ℕ) → List String → List String
lines_between zero end_line lines = drop (length lines - 1) (take end_line lines)
lines_between (suc start) end_line lines = drop start (take end_line lines)

module _ (F : Files) (repo_root : String) where
  -- the path as it stands if it is absolute, or else below the root
  unfoldable pub full_path : String → String
  full_path path = if F.is_absolute path then path else F.join repo_root path

  -- `str(path.relative_to(repo_root))`, or the text given if the path is not below the root
  unfoldable pub relative_or : (path otherwise : String) → String
  relative_or path otherwise = elim (F.relative_to path repo_root) [
    | none ↦ otherwise
    | some rel ↦ rel
  ]

module _ {S : Type 0} where
  unfoldable pub with_source : CodeChunk S → Read → Result (CodeChunk S)
  with_source c (read lines) = ok (record c {
    source_code = some (joined (lines_between c.location.start_line c.location.end_line lines));
  })
  with_source c missing = ok (record c { source_code = none })
  with_source c undecodable = err unicode_error

module _ {S : Type 0} (F : Files) (repo_root : String) (include_source : Bool) where
  unfoldable pub hydrate_chunk : CodeChunk S → Result (CodeChunk S)
  hydrate_chunk c =
      if include_source
      then with_source c (F.read_text (full_path F repo_root c.location.file_path))
      else ok (record c { source_code = none })
