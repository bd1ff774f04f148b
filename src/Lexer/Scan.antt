-- ===== src/Lexer/Scan.antt =====
-- The next token: `Lexer::next` and `Lexer::read_other` of server/p4l/lexer.cpp.
pub mod Lengths
pub mod Shapes
pub mod Closed
pub mod Ends
pub mod Symbols
pub mod Tokens
use p4ls.Prelude.{
  ℕ, zero, suc, ◌+◌, Bool, ◌&&◌, ◌||◌, Option, none, some, [], ◌∷◌, ◌++◌, Bytes, length, leb, ◌==◌,
  if◌then◌else◌,
}
use p4ls.Prelude.Decimal.{is_digit}
use p4ls.Lexer.{
  TokenId, t_unknown, t_end, t_ne, t_not, t_mod, t_mask, t_and, t_bit_and, t_l_paren, t_r_paren,
  t_mul, t_pp, t_plus, t_comma, t_minus, t_range, t_dot, t_div, t_colon, t_semicolon, t_shl, t_le,
  t_l_angle, t_eq, t_assign, t_ge, t_r_angle, t_question, t_end_pragma, t_at, t_l_bracket,
  t_r_bracket, t_bit_xor, t_l_brace, t_plus_sat, t_minus_sat, t_or, t_bit_or, t_r_brace,
  t_complement, Lexer, eof, advance, Lexed, read_identifier, read_string, read_comment,
  read_location,
}
use p4ls.Lexer.Number.{read_number}
use Lexed.{returns, throws, undefined, endless, out_of_fuel}

-- `isspace` and `isalpha` in the C locale.
abbrev pub is_space : ℕ → Bool
is_space c = c == b' ' || (leb 9 c && leb c 13)

abbrev pub is_alpha : ℕ → Bool
is_alpha c = (leb b'A' c && leb c b'Z') || (leb b'a' c && leb c b'z')

-- The loop over blanks; each round takes a character or is the last.
unfoldable pub space_loop : ℕ → Lexer → Lexer
space_loop zero l = l
space_loop (suc fuel) l =
    let rest = space_loop fuel (advance l) in if is_space l.last then rest else l

unfoldable pub skip_space : Lexer → Lexer
unfolding space_loop
skip_space l = space_loop (suc (suc (length l.rest))) l

-- `read_pragma` reads nothing.
abbrev pub read_pragma : Lexer → TokenId × Lexer
read_pragma l = (t_end_pragma, l)

abbrev returned : TokenId × Lexer → Lexed
returned (t, l) = returns t l

-- The tokens of one, two and three characters, `prev` before the current one of `l`.
unfoldable pub read_not : Lexer → Lexed
read_not l = if l.last == b'=' then returns t_ne (advance l) else returns t_not l

unfoldable pub read_and : Lexer → Lexed
read_and l =
    let second = advance l in
    if l.last == b'&'
    then if second.last == b'&' then returns t_mask (advance second) else returns t_and second
    else returns t_bit_and l

unfoldable pub read_plus : Lexer → Lexed
read_plus l = if l.last == b'+' then returns t_pp (advance l) else returns t_plus l

unfoldable pub read_dot : Lexer → Lexed
read_dot l = if l.last == b'.' then returns t_range (advance l) else returns t_dot l

unfoldable pub read_less : Lexer → Lexed
read_less l =
    if l.last == b'<'
    then returns t_shl (advance l)
    else if l.last == b'='
    then returns t_le (advance l)
    else returns t_l_angle l

unfoldable pub read_equal : Lexer → Lexed
read_equal l = if l.last == b'=' then returns t_eq (advance l) else returns t_assign l

unfoldable pub read_greater : Lexer → Lexed
read_greater l = if l.last == b'=' then returns t_ge (advance l) else returns t_r_angle l

unfoldable pub read_bar : Lexer → Lexed
read_bar l =
    let second = advance l in
    let saturating = λ (t : TokenId).
      if second.last == b'|' then returns t (advance second) else returns t_unknown second in
    if l.last == b'+'
    then saturating t_plus_sat
    else if l.last == b'-'
    then saturating t_minus_sat
    else if l.last == b'|'
    then returns t_or (advance l)
    else returns t_bit_or l

unfoldable pub read_at : Lexer → Lexed
read_at l = if l.last == b'p' then returned (read_pragma l) else returns t_at l

-- A line marker and a comment are followed by `next`, an argument here. A comment whose loops have
-- not ended after two rounds more than there are characters left does not end.
unfoldable pub read_marker : (Lexer → Lexed) → Lexer → Lexed
read_marker next l =
    let l' = read_location l in if l'.last == eof then returns t_end l' else next l'

unfoldable pub read_slash : (Lexer → Lexed) → Lexer → Lexed
read_slash next l =
    if l.last == b'/' || l.last == b'*'
    then elim (read_comment (suc (suc (length l.rest))) l) [ none ↦ endless | some l' ↦ next l' ]
    else returns t_div l

-- `read_other`, by the character that it takes.
unfoldable pub read_other : (Lexer → Lexed) → Lexer → Lexed
read_other next before =
    let prev = before.last in
    let l = advance before in
    if prev == b'!'
    then read_not l
    else if prev == b'"'
    then returned (read_string l)
    else if prev == b'#'
    then read_marker next l
    else if prev == b'%'
    then returns t_mod l
    else if prev == b'&'
    then read_and l
    else if prev == b'('
    then returns t_l_paren l
    else if prev == b')'
    then returns t_r_paren l
    else if prev == b'*'
    then returns t_mul l
    else if prev == b'+'
    then read_plus l
    else if prev == b','
    then returns t_comma l
    else if prev == b'-'
    then returns t_minus l
    else if prev == b'.'
    then read_dot l
    else if prev == b'/'
    then read_slash next l
    else if prev == b':'
    then returns t_colon l
    else if prev == b';'
    then returns t_semicolon l
    else if prev == b'<'
    then read_less l
    else if prev == b'='
    then read_equal l
    else if prev == b'>'
    then read_greater l
    else if prev == b'?'
    then returns t_question l
    else if prev == b'@'
    then read_at l
    else if prev == b'['
    then returns t_l_bracket l
    else if prev == b']'
    then returns t_r_bracket l
    else if prev == b'^'
    then returns t_bit_xor l
    else if prev == b'{'
    then returns t_l_brace l
    else if prev == b'|'
    then read_bar l
    else if prev == b'}'
    then returns t_r_brace l
    else if prev == b'~'
    then returns t_complement l
    else returns t_unknown l

-- `next`, where `fuel` bounds the comments and line markers before the token.
unfoldable pub next_on : ℕ → Lexer → Lexed
next_on zero l = out_of_fuel
next_on (suc fuel) l =
    let l' = skip_space l in
    let other = read_other (next_on fuel) l' in
    if l'.last == eof
    then returns t_end l'
    else if is_alpha l'.last || l'.last == b'_'
    then returned (read_identifier l')
    else if is_digit l'.last
    then read_number l'
    else other

unfoldable pub next : Lexer → Lexed
next l = next_on (suc (length l.rest)) l
