-- ===== src/Tests/Scanning.antt =====
-- The next token, numbers, and a short text of P4.
use p4ls.Prelude.{
  suc, ◌≡◌, refl, inl, inr, true, false, none, some, List, [], ◌∷◌, ◌++◌, Bytes, map, codes, length,
  arith,
}
use p4ls.Prelude.Int.{pos}
use p4ls.Prelude.Decimal.{to_string}
use p4ls.Lexer.{
  Lexer, Lexed, t_unknown, t_number, t_end, get, advance, t_l_brace, t_semicolon, new_lexer,
}
use p4ls.Lexer.Number.{
  read_number, number_loop, match_number, split_width, split_base, base_of, some_in, all_in,
  evaluate, read_digits, in_base, digit_value, stoi_base, digits_value, masked,
}
use p4ls.Lexer.Number.Based.{Item}
use p4ls.Lexer.Number.Reading.{behind, literal}
use p4ls.Lexer.Number.Literals.{written, read_number-literal}
use p4ls.Lexer.Scan.Tokens.{Lexeme, symbol, word, number, token_of, print, tokens, tokens-print}
use p4ls.Tests.Lexing.{at_input}
use Lexed.{returns}

-- header { 8 ;
abbrev a_header : List Lexeme
a_header =
    word b'h' (codes "eader")
    ∷ symbol 30 (codes "{") t_l_brace
    ∷ number 8
    ∷ symbol 17 (codes ";") t_semicolon
    ∷ []

tokens-print_example :
    tokens (suc (length a_header)) (new_lexer (print a_header))
    ≡ some (map token_of a_header ++ t_end ∷ [])
tokens-print_example =
    tokens-print a_header
      ((refl, (refl, (refl, (refl, (refl, (refl, tt)))))), (refl, (omega arith, (refl, tt))))

-- // a
abbrev commented : Lexer
commented = at_input b'/' (codes "/ a\n;")

-- 8w0x1F_0;
abbrev hexadecimal : Lexer
hexadecimal = at_input b'8' (codes "w0x1F_0;")

abbrev behind_first : List Item
behind_first = some (true, 15) ∷ none ∷ some (false, 0) ∷ []

abbrev whole : Bytes
whole = written 8 false (some b'x') (some (false, 1) ∷ behind_first)

hexadecimal_text : hexadecimal.last ∷ hexadecimal.rest ≡ whole ++ b';' ∷ []
unfolding to_string
hexadecimal_text = refl

read_number-literal_example :
    read_number hexadecimal ≡ literal 8 false 31 (behind hexadecimal whole b';' [])
read_number-literal_example =
    read_number-literal hexadecimal 8 false (some b'x') 16 false 1 behind_first b';' []
      (inr (inr (inr (inl refl, refl)))) (omega arith, (omega arith, (tt, (omega arith, tt)))) refl
      hexadecimal_text refl

-- Hexadecimal digits; the digits behind an underscore are lost; a digit of another base.
numbers_read :
    (read_number (at_input b'0' (codes "x1F;"))
      ≡ returns t_number (record (at_input b';' []) { col = 5; value = pos 31 }))
    × (read_number (at_input b'1' (codes "_000;"))
        ≡ returns t_number (record (at_input b';' []) { col = 6; value = pos 1 }))
    × (read_number (at_input b'0' (codes "b12;"))
        ≡ returns t_unknown (record (at_input b';' []) { col = 5 }))
unfolding read_number number_loop match_number split_width split_base base_of some_in all_in
    evaluate read_digits in_base digit_value stoi_base digits_value masked advance get
numbers_read = (refl, refl, refl)
