-- ===== src/Scanner.antt =====
-- `FileScanner` of common/util.py: a file that grows is read by chunks and cut into lines. The
-- separator is one character, as everywhere in the repository, and `_read_data` takes every line.
pub mod Chunks
mod Tests
use yandex_tank.Prelude.{ℕ, List, [], ◌∷◌, ◌++◌}
use yandex_tank.Prelude.Text.{Text, split}

-- `portions[:-1]`
abbrev pub but_last : List Text → List Text
but_last [] = []
but_last (p ∷ []) = []
but_last (p ∷ q ∷ ps) = p ∷ but_last (q ∷ ps)

-- `portions[-1]`; a split has a portion
abbrev pub last_of : List Text → Text
last_of [] = []
last_of (p ∷ []) = p
last_of (p ∷ q ∷ ps) = last_of (q ∷ ps)

module _ (sep : ℕ) where
  -- `_read_lines`: the lines of a chunk, and what stays in the buffer
  unfoldable pub read_lines : (buffer chunk : Text) → List Text × Text
  read_lines buffer chunk =
      let portions = split sep (buffer ++ chunk) in (but_last portions, last_of portions)

  -- the loop of `__iter__`, over the chunks that are read until the scanner is closed
  unfoldable pub scan : (buffer : Text) → List Text → List Text × Text
  unfolding read_lines
  scan buffer [] = ([], buffer)
  scan buffer (chunk ∷ chunks) =
      let (lines, rest) = read_lines buffer chunk in
      let (later, last) = scan rest chunks in (lines ++ later, last)
