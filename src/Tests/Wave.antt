-- ===== src/Tests/Wave.antt =====
-- A small functor under the preprocessor's iterator, which takes each character as a token.
use p4ls.Prelude.{ℕ, ◌+◌, ◌≡◌, refl, Bool, true, Option, some, [], ◌∷◌, Bytes, arith}
use p4ls.Token.{Positions, Token}
use p4ls.Slex.{LexInput}

pub record Place : Type 0 where
  pub file : Bytes
  pub line : ℕ
  pub column : ℕ

abbrev pub places : Positions
places = record {
  P = Place;
  initial = record { file = []; line = 1; column = 1 };
  get_file = λ p. p.file;
  get_line = λ p. p.line;
  get_column = λ p. p.column;
  set_file = λ f p. record p { file = f };
  set_line = λ n p. record p { line = n };
  get_file-set_file = λ f p. refl;
  get_file-set_line = λ n p. refl;
  get_line-set_line = λ n p. refl;
  get_column-set_file = λ f p. refl;
  get_column-set_line = λ n p. refl;
}

-- A text from a place on, and whether its end was given.
pub record Cursor : Type 0 where
  pub text : Bytes
  pub place : Place
  pub ended : Bool

-- The next character, or the end.
abbrev pub next_token : Cursor → Option (Token places) × Cursor
next_token c = elim c.text [
  | [] ↦ (some (record { id = 300; value = []; pos = c.place }), record c { ended = true })
  | x ∷ xs ↦ (
    some (record { id = 302; value = x ∷ []; pos = c.place }),
    record c { text = xs; place = record c.place { column = c.place.column + 1 } },
  )
]

pub next_token-place :
    (text : Bytes) (place : Place) (ended : Bool) (c' : Cursor) (token : Token places)
    → next_token (record { text = text; place = place; ended = ended }) ≡ (some token, c')
    → token.pos ≡ place
next_token-place [] place ended c' token h = ground (arith, h)
next_token-place (x ∷ xs) place ended c' token h = ground (arith, h)

abbrev pub input : LexInput places
input = record {
  F = Cursor;
  get = next_token;
  set_position = λ p c. record c { place = record c.place { file = p.file; line = p.line } };
  place = λ c. c.place;
  at_eof = λ c. c.ended;
  wants_all = λ c. true;
  at_eof-set_position = λ p c. refl;
  wants_all-set_position = λ p c. refl;
  get_file-set_position = λ p c. refl;
  get_line-set_position = λ p c. refl;
  get_column-set_position = λ p c. refl;
  get-place = λ c c' token n w h. next_token-place c.text c.place c.ended c' token h;
}
