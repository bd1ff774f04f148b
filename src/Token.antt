-- ===== src/Token.antt =====
-- The tokens for the preprocessor: server/p4l/p4lex_token.h, and `set_position` of
-- server/p4l/p4lex_iterator.h. What Boost.Wave gives is a parameter: the positions, the numbers of
-- the tokens and their names.
pub mod Same
pub mod Place
use p4ls.Prelude.{
  ℕ, zero, suc, ◌+◌, ◌-◌, ◌%◌, ◌^◌, ◌≡◌, Bool, false, not, ◌&&◌, ◌||◌, List, [], ◌∷◌, ◌++◌, Bytes,
  codes, length, ◌==◌, equal, if◌then◌else◌,
}
use p4ls.Prelude.Decimal.{to_string}

-- `boost::wave::util::file_position`.
pub record Positions : Type 1 where
  pub P : Type 0
  pub initial : P
  pub get_file : P → Bytes
  pub get_line : P → ℕ
  pub get_column : P → ℕ
  pub set_file : Bytes → P → P
  pub set_line : ℕ → P → P
  pub get_file-set_file : (f : Bytes) (p : P) → get_file (set_file f p) ≡ f
  pub get_file-set_line : (n : ℕ) (p : P) → get_file (set_line n p) ≡ get_file p
  pub get_line-set_line : (n : ℕ) (p : P) → get_line (set_line n p) ≡ n
  pub get_column-set_file : (f : Bytes) (p : P) → get_column (set_file f p) ≡ get_column p
  pub get_column-set_line : (n : ℕ) (p : P) → get_column (set_line n p) ≡ get_column p

-- The numbers of two tokens, and what is printed of a token's number.
pub record Ids : Type 0 where
  pub t_eoi : ℕ
  pub t_unknown : ℕ
  pub get_token_name : ℕ → Bytes
  pub base_id : ℕ → Bytes

module _ (positions : Positions) where
  open positions use {P, initial, get_file, get_line, get_column, set_file, set_line}

  pub record Token : Type 0 where
    pub id : ℕ
    pub value : Bytes
    pub pos : P

  -- The three constructors.
  unfoldable pub default_token : Ids → Token
  default_token ids = record { id = ids.t_eoi; value = []; pos = initial }

  unfoldable pub unknown_token : Ids → ℕ → Token
  unknown_token ids n = record { id = ids.t_unknown; value = []; pos = initial }

  unfoldable pub new_token : ℕ → Bytes → P → Token
  new_token id value pos = record { id = id; value = value; pos = pos }

  unfoldable pub is_eoi : Ids → Token → Bool
  is_eoi ids token = token.id == ids.t_eoi

  unfoldable pub is_valid : Ids → Token → Bool
  is_valid ids token = not (token.id == ids.t_unknown)

  unfoldable pub set_token_id : ℕ → Token → Token
  set_token_id id token = record token { id = id }

  unfoldable pub set_value : Bytes → Token → Token
  set_value newval token = record token { value = newval }

  unfoldable pub set_position : P → Token → Token
  set_position pos token = record token { pos = pos }

  -- `operator==` of tokens.
  unfoldable pub same_token : Token → Token → Bool
  same_token lhs rhs = lhs.id == rhs.id && equal lhs.value rhs.value

  -- The iterator: its current token, and the position that its lexer was given.
  pub record Iterator : Type 0 where
    pub current : Token
    pub lexer_position : P

  -- `find_first_of('\n')` finds something.
  unfoldable pub has_newline : Bytes → Bool
  has_newline [] = false
  has_newline (c ∷ cs) = c == b'\n' || has_newline cs

  -- `p4lex_iterator::set_position`; a line is a `size_t`.
  unfoldable pub move_to : P → Iterator → Iterator
  unfolding set_position has_newline
  move_to pos it =
      let currpos = set_line (get_line pos) (set_file (get_file pos) it.current.pos) in
      record {
        current = set_position currpos it.current;
        lexer_position =
            if has_newline it.current.value
            then set_line ((get_line pos + 1) % 2 ^ 64) currpos
            else currpos;
      }

  -- The loop of `print` over the characters of the text.
  unfoldable pub escape : Bytes → Bytes
  escape [] = []
  escape (c ∷ cs) =
      let rest = escape cs in
      if c == b'\r'
      then codes "\\r" ++ rest
      else if c == b'\n'
      then codes "\\n" ++ rest
      else if c == b'\t'
      then codes "\\t" ++ rest
      else c ∷ rest

  abbrev pub blanks : ℕ → Bytes
  blanks zero = []
  blanks (suc n) = b' ' ∷ blanks n

  -- `setw`, with the text at the left and at the right.
  abbrev pub left : ℕ → Bytes → Bytes
  left width s = s ++ blanks (width - length s)

  abbrev pub right : ℕ → Bytes → Bytes
  right width s = blanks (width - length s) ++ s

  abbrev pub concat : List Bytes → Bytes
  concat [] = []
  concat (s ∷ ss) = s ++ concat ss

  -- What goes to the stream, in order.
  abbrev pub pieces : Ids → Token → List Bytes
  pieces ids token =
      left 16 (ids.get_token_name token.id)
      ∷ codes " (#"
      ∷ ids.base_id token.id
      ∷ codes ") at "
      ∷ get_file token.pos
      ∷ codes " ("
      ∷ right 3 (to_string (get_line token.pos))
      ∷ codes "/"
      ∷ right 2 (to_string (get_column token.pos))
      ∷ codes "): >"
      ∷ escape token.value
      ∷ codes "<"
      ∷ []

  unfoldable pub print : Ids → Token → Bytes
  print ids token = concat (pieces ids token)
