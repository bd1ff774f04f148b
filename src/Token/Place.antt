-- ===== src/Token/Place.antt =====
-- Where the tokens stand after the position of an iterator was set.
use p4ls.Prelude.{
  ℕ, ◌+◌, ◌%◌, ◌^◌, ◌≡◌, refl, ◌∙◌, ap, Bool, true, false, equal_refl, if◌then◌else◌, arith,
}
use p4ls.Token.{Positions, Iterator, same_token, has_newline, set_position, move_to}

module _ (positions : Positions) where
  open positions use {
    P, get_file, get_line, get_column, set_file, set_line, get_file-set_file, get_file-set_line,
    get_line-set_line, get_column-set_file, get_column-set_line,
  }

  file_below : (b : Bool) (n : ℕ) (p : P) → get_file (if b then set_line n p else p) ≡ get_file p
  file_below true n p = get_file-set_line n p
  file_below false n p = refl

  line_below :
      (b : Bool) (n : ℕ) (p : P)
      → get_line (if b then set_line n p else p) ≡ (if b then n else get_line p)
  line_below true n p = get_line-set_line n p
  line_below false n p = refl

  column_below :
      (b : Bool) (n : ℕ) (p : P) → get_column (if b then set_line n p else p) ≡ get_column p
  column_below true n p = get_column-set_line n p
  column_below false n p = refl

  -- Moving an iterator keeps its current token, and sets the file and the line but no column: the
  -- current token stands where it was told to, and the lexer goes on there, or one line below if the
  -- token holds a line feed, however many it holds.
  pub move_to-places :
      (pos : P) (it : Iterator positions)
      → (same_token positions (move_to positions pos it).current it.current ≡ true)
        × (get_file (move_to positions pos it).current.pos ≡ get_file pos)
        × (get_line (move_to positions pos it).current.pos ≡ get_line pos)
        × (get_column (move_to positions pos it).current.pos ≡ get_column it.current.pos)
        × (get_file (move_to positions pos it).lexer_position ≡ get_file pos)
        × (get_line (move_to positions pos it).lexer_position ≡ (
            if has_newline positions it.current.value
            then (get_line pos + 1) % 2 ^ 64
            else get_line pos))
        × (get_column (move_to positions pos it).lexer_position ≡ get_column it.current.pos)
  unfolding move_to set_position same_token
  move_to-places pos it =
      let placed = set_file (get_file pos) it.current.pos in
      let new = set_line (get_line pos) placed in
      let newline = has_newline positions it.current.value in
      let below = (get_line pos + 1) % 2 ^ 64 in
      let file =
        get_file-set_line (get_line pos) placed ∙ get_file-set_file (get_file pos) it.current.pos in
      let line = get_line-set_line (get_line pos) placed in
      let column =
        get_column-set_line (get_line pos) placed
        ∙ get_column-set_file (get_file pos) it.current.pos in
      (
        ground (arith, equal_refl it.current.value),
        file,
        line,
        column,
        file_below newline below new ∙ file,
        line_below newline below new ∙ ap (λ n. if newline then below else n) line,
        column_below newline below new ∙ column,
      )
