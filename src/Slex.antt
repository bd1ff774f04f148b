-- ===== src/Slex.antt =====
-- The iterator through which the preprocessor takes its tokens: server/p4l/p4lex_iterator.h. The
-- functor behind it, in the second half of server/p4l/lexer.h, is a copy of the one of Boost.Wave, and a
-- parameter.
pub mod Iterator
use p4ls.Prelude.{◌≡◌, Bool, true, false, Option, some}
use p4ls.Token.{Positions, Token}

-- `lex_input_interface`: what the iterator calls, with what is documented of it. The functor reads a
-- text from a place on; `get` gives a token or throws, and while every token is wanted the one that it
-- gives before the end stands where the text goes on. `set_position` changes the file and the line of
-- that place and nothing else.
pub record LexInput (positions : Positions) : Type 1 where
  pub F : Type 0
  pub get : F → Option (Token positions) × F
  pub set_position : positions.P → F → F
  pub place : F → positions.P
  pub at_eof : F → Bool
  pub wants_all : F → Bool
  pub at_eof-set_position : (pos : positions.P) (f : F) → at_eof (set_position pos f) ≡ at_eof f
  pub wants_all-set_position :
      (pos : positions.P) (f : F) → wants_all (set_position pos f) ≡ wants_all f
  pub get_file-set_position :
      (pos : positions.P) (f : F)
      → positions.get_file (place (set_position pos f)) ≡ positions.get_file pos
  pub get_line-set_position :
      (pos : positions.P) (f : F)
      → positions.get_line (place (set_position pos f)) ≡ positions.get_line pos
  pub get_column-set_position :
      (pos : positions.P) (f : F)
      → positions.get_column (place (set_position pos f)) ≡ positions.get_column (place f)
  pub get-place :
      (f f' : F) (token : Token positions)
      → at_eof f ≡ false
      → wants_all f ≡ true
      → get f ≡ (some token, f')
      → token.pos ≡ place f
