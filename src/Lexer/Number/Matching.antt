-- ===== src/Lexer/Number/Matching.antt =====
-- The expression of a number on decimal numbers, and on a width.
use p4ls.Prelude.{ℕ, ◌≡◌, subst, none, some, ◌∷◌, ◌++◌, Bytes, ◌⊎◌, arith}
use p4ls.Prelude.Decimal.{to_string, IsDigits, to_string-IsDigits, to_string-cons}
use p4ls.Lexer.Number.{split_width, split_base, match_number}
use p4ls.Lexer.Number.Characters.{split_width-digits, split_width-append, split_base-digits}

split_base-to_string : (n : ℕ) → split_base (to_string n) ≡ some (10, to_string n)
split_base-to_string n =
    let (c, s, e) = to_string-cons n in
    rw e (split_base-digits c s (subst IsDigits e (to_string-IsDigits n)))

pub match_number-to_string :
    (n : ℕ)
    → match_number (to_string n) ≡ some (record { prefix = none; base = 10; digits = to_string n })
unfolding match_number
match_number-to_string n =
    ground (arith, split_width-digits (to_string n) (to_string-IsDigits n), split_base-to_string n)

pub split_width-to_string :
    (width : ℕ) (rest : Bytes) (letter : ℕ)
    → (letter ≡ b's') ⊎ (letter ≡ b'w')
    → split_width (to_string width ++ letter ∷ rest) ≡ some (to_string width, letter, rest)
split_width-to_string width rest letter which =
    let (c, s, e) = to_string-cons width in
    rw e (split_width-append c s rest letter (subst IsDigits e (to_string-IsDigits width)) which)
