-- ===== src/Lexer/Scan/Symbols.antt =====
-- Each symbol, with a blank behind it, is read as its token.
use p4ls.Prelude.{
  ℕ, zero, suc, ◌≡◌, refl, ap, subst, false, Option, none, some, List, [], ◌∷◌, ◌++◌, Bytes, codes,
  All, ◌&◌, get_elem?, arith,
}
use p4ls.Lexer.{
  TokenId, t_ne, t_not, t_mod, t_mask, t_and, t_bit_and, t_l_paren, t_r_paren, t_mul, t_pp, t_plus,
  t_comma, t_minus, t_range, t_dot, t_div, t_colon, t_semicolon, t_shl, t_le, t_l_angle, t_eq,
  t_assign, t_ge, t_r_angle, t_question, t_at, t_l_bracket, t_r_bracket, t_bit_xor, t_l_brace,
  t_plus_sat, t_minus_sat, t_or, t_bit_or, t_r_brace, t_complement, Lexer, Lexed, get, advance,
}
use p4ls.Lexer.Scan.{
  space_loop, skip_space, next_on, next, read_other, read_not, read_and, read_plus, read_dot,
  read_slash, read_less, read_equal, read_greater, read_bar, read_at,
}
use Lexed.{returns}

-- The texts of the tokens that are neither words, numbers nor texts in quotes.
abbrev pub symbols : List (Bytes × TokenId)
symbols =
    (codes "!=", t_ne)
    ∷ (codes "!", t_not)
    ∷ (codes "%", t_mod)
    ∷ (codes "&&&", t_mask)
    ∷ (codes "&&", t_and)
    ∷ (codes "&", t_bit_and)
    ∷ (codes "(", t_l_paren)
    ∷ (codes ")", t_r_paren)
    ∷ (codes "*", t_mul)
    ∷ (codes "++", t_pp)
    ∷ (codes "+", t_plus)
    ∷ (codes ",", t_comma)
    ∷ (codes "-", t_minus)
    ∷ (codes "..", t_range)
    ∷ (codes ".", t_dot)
    ∷ (codes "/", t_div)
    ∷ (codes ":", t_colon)
    ∷ (codes ";", t_semicolon)
    ∷ (codes "<<", t_shl)
    ∷ (codes "<=", t_le)
    ∷ (codes "<", t_l_angle)
    ∷ (codes "==", t_eq)
    ∷ (codes "=", t_assign)
    ∷ (codes ">=", t_ge)
    ∷ (codes ">", t_r_angle)
    ∷ (codes "?", t_question)
    ∷ (codes "@", t_at)
    ∷ (codes "[", t_l_bracket)
    ∷ (codes "]", t_r_bracket)
    ∷ (codes "^", t_bit_xor)
    ∷ (codes "{", t_l_brace)
    ∷ (codes "|+|", t_plus_sat)
    ∷ (codes "|-|", t_minus_sat)
    ∷ (codes "||", t_or)
    ∷ (codes "|", t_bit_or)
    ∷ (codes "}", t_r_brace)
    ∷ (codes "~", t_complement)
    ∷ []

-- Reading stands at the blank before this text.
abbrev pub at_blank : Lexer → Bytes → Lexer
at_blank l s = record l { rest = s; failed = false; last = b' ' }

-- A call has returned this token, and stands at the blank before this text.
abbrev pub Read : Lexed → TokenId → Bytes → Type 0
Read lexed t more = (l : Lexer) × (lexed ≡ returns t (at_blank l more))

abbrev pub ReadSymbol : Lexer → Bytes → Bytes × TokenId → Type 0
ReadSymbol l more (s, t) =
    (col : ℕ) × (next (at_blank l (s ++ b' ' ∷ more))
      ≡ returns t (record (at_blank l more) { col = col }))

pub next-symbols : (l : Lexer) (more : Bytes) → All (ReadSymbol l more) symbols
unfolding next next_on skip_space space_loop advance get read_other read_not read_and read_plus
    read_dot read_slash read_less read_equal read_greater read_bar read_at
next-symbols l more =
    (_, refl)
    & (_, refl)
    & (_, refl)
    & (_, refl)
    & (_, refl)
    & (_, refl)
    & (_, refl)
    & (_, refl)
    & (_, refl)
    & (_, refl)
    & (_, refl)
    & (_, refl)
    & (_, refl)
    & (_, refl)
    & (_, refl)
    & (_, refl)
    & (_, refl)
    & (_, refl)
    & (_, refl)
    & (_, refl)
    & (_, refl)
    & (_, refl)
    & (_, refl)
    & (_, refl)
    & (_, refl)
    & (_, refl)
    & (_, refl)
    & (_, refl)
    & (_, refl)
    & (_, refl)
    & (_, refl)
    & (_, refl)
    & (_, refl)
    & (_, refl)
    & (_, refl)
    & (_, refl)
    & (_, refl)
    & tt

pub All-get_elem? :
    (P : Bytes × TokenId → Type 0) (xs : List (Bytes × TokenId)) (i : ℕ) (x : Bytes × TokenId)
    → All P xs
    → get_elem? xs i ≡ some x
    → P x
All-get_elem? P [] i x a e = ground arith
All-get_elem? P (y ∷ xs) zero x a e =
    subst P (ap (λ (o : Option (Bytes × TokenId)). elim o [ none ↦ y | some z ↦ z ]) e) a.0
All-get_elem? P (y ∷ xs) (suc i) x a e = All-get_elem? P xs i x a.1 e
