-- ===== src/Slex/Iterator.antt =====
-- The iterator over the preprocessor's tokens with its functor behind it: server/p4l/p4lex_iterator.h.
-- How the multi-pass iterator of Boost keeps the tokens that it has read is not looked at.
use p4ls.Prelude.{
  ◌+◌, ◌%◌, ◌^◌, ◌≡◌, ap, ◌∙◌, true, false, Option, none, some, if◌then◌else◌, arith,
}
use p4ls.Token.{Positions, Token, has_newline, move_to}
use p4ls.Token.Place.{move_to-places}
use p4ls.Slex.{LexInput}

module _ (positions : Positions) (input : LexInput positions) where
  open positions use {P, get_file, get_line, get_column}
  open input use {F}

  -- The current token, and the functor that all copies of the iterator share.
  pub record LexIterator : Type 0 where
    pub current : Token positions
    pub functor : F

  -- A token that was read replaces the current one; `none` is an exception.
  abbrev pub carry :
      Option (Token positions) → F → LexIterator → Option (Token positions) × LexIterator
  carry (some token) functor it = (some token, record { current = token; functor = functor })
  carry none functor it = (none, record it { functor = functor })

  -- `get_next` of the shim.
  unfoldable pub get_next : LexIterator → Option (Token positions) × LexIterator
  get_next it = let (result, functor) = input.get it.functor in carry result functor it

  -- `set_position` of the iterator: it moves its token and then its functor.
  unfoldable pub set_position : P → LexIterator → LexIterator
  set_position pos it =
      let moved = move_to positions pos (record { current = it.current; lexer_position = pos }) in
      record {
        current = moved.current;
        functor = input.set_position moved.lexer_position it.functor;
      }

  carried :
      (r : Option (Token positions)) (f : F) (it it' : LexIterator) (token : Token positions)
      → carry r f it ≡ (some token, it')
      → ◌≡◌ {A = Option (Token positions) × F} (r, f) (some token, it'.functor)
  carried (some token') f it it' token h = ground (arith, h)
  carried none f it it' token h = ground (arith, h)

  get_next-functor :
      (it it' : LexIterator) (token : Token positions)
      → get_next it ≡ (some token, it')
      → input.get it.functor ≡ (some token, it'.functor)
  unfolding get_next
  get_next-functor it it' token h = carried _ _ it it' token h

  -- After an iterator was moved, and before its text is at its end, where every token is wanted the
  -- next token stands in the file that it was told, on the line that it was told, or on the one below
  -- if the current token holds a line feed, and in the column where the text goes on.
  pub set_position-get_next :
      (pos : P) (it it' : LexIterator) (token : Token positions)
      → input.at_eof it.functor ≡ false
      → input.wants_all it.functor ≡ true
      → get_next (set_position pos it) ≡ (some token, it')
      → (get_file token.pos ≡ get_file pos)
        × (get_line token.pos ≡ (
            if has_newline positions it.current.value
            then (get_line pos + 1) % 2 ^ 64
            else get_line pos))
        × (get_column token.pos ≡ get_column (input.place it.functor))
  unfolding set_position
  set_position-get_next pos it it' token n w h =
      let moved = move_to positions pos (record { current = it.current; lexer_position = pos }) in
      let place =
        move_to-places positions pos (record { current = it.current; lexer_position = pos }) in
      let to = moved.lexer_position in
      let functor = input.set_position to it.functor in
      let at =
        input.get-place functor it'.functor token (input.at_eof-set_position to it.functor ∙ n)
          (input.wants_all-set_position to it.functor ∙ w)
          (get_next-functor (set_position pos it) it' token h) in
      let (kept, f, l, c, file', line', column') = place in
      (
        ap get_file at ∙ input.get_file-set_position to it.functor ∙ file',
        ap get_line at ∙ input.get_line-set_position to it.functor ∙ line',
        ap get_column at ∙ input.get_column-set_position to it.functor,
      )
