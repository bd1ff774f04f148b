-- ===== src/P4Unit/Index.antt =====
-- server/lsp/p4unit.cpp, `get_position_index`: the index in the text of a line and a character.
-- Indices are `size_t`, which the sums here do not exceed.
pub mod Lines
pub mod Points
use p4ls.Prelude.{
  ℕ, zero, suc, ◌+◌, Option, none, some, [], ◌∷◌, Bytes, length, drop, ltb, ◌==◌, if◌then◌else◌,
}
use p4ls.Info.{Position}

abbrev pub newline : ℕ
newline = b'\n'

-- `std::string::find_first_of` of a one-character set, on the text that is left ...
pub index_of : ℕ → Bytes → Option ℕ
index_of c [] = none
index_of c (x ∷ xs) =
    if x == c then some 0 else elim (index_of c xs) [ none ↦ none | some k ↦ some (suc k) ]

-- ... and from an index on.
pub find_first_of : Bytes → ℕ → ℕ → Option ℕ
unfolding index_of
find_first_of content c index = elim (index_of c (drop index content)) [
  | none ↦ none
  | some k ↦ some (index + k)
]

-- The loop over the lines: `n` lines are still to be passed from `index` on.
pub line_start : Bytes → ℕ → ℕ → Option ℕ
unfolding find_first_of
line_start content zero index = some index
line_start content (suc n) index = elim (find_first_of content newline index) [
  | none ↦ none
  | some next_index ↦ line_start content n (next_index + 1)
]

-- The end of the line that begins at `index`.
pub line_end : Bytes → ℕ → ℕ
unfolding find_first_of
line_end content index = elim (find_first_of content newline index) [
  | none ↦ length content
  | some line_end_index ↦ line_end_index
]

-- The loop's early return and the test behind it; `none` is `npos`.
unfoldable pub get_position_index : Bytes → Position → Option ℕ
unfolding line_start line_end
get_position_index content position = elim (line_start content position.line 0) [
  | none ↦ none
  | some index ↦
      if ltb (index + position.character) (line_end content index)
      then some (index + position.character)
      else none
]
