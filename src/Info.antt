-- ===== src/Info.antt =====
-- server/p4l/info.h: a position in a document, zero-based; both fields are `unsigned int`.
use p4ls.Prelude.{ℕ}

pub record Position : Type 0 where
  pub line : ℕ
  pub character : ℕ

-- The source range of a syntax node, as the compiler reports it.
pub record Info : Type 0 where
  pub start : Position
  pub finish : Position

-- `get_start`, `get_end`, `get_line_number` and `get_column_number`.
unfoldable pub get_start : Info → Position
get_start i = i.start

unfoldable pub get_end : Info → Position
get_end i = i.finish

unfoldable pub get_line_number : Position → ℕ
get_line_number p = p.line

unfoldable pub get_column_number : Position → ℕ
get_column_number p = p.character
