-- ===== src/Lexer/Scan/Tokens.antt =====
-- A text of symbols, words and decimal numbers, a blank behind each, is read as their tokens.
use p4ls.Prelude.{
  ℕ, zero, suc, ◌+◌, ◌^◌, ◌<◌, ◌≡◌, refl, sym, ap, subst, true, false, ◌||◌, Option, none, some,
  List, [], ◌∷◌, ◌++◌, map, Bytes, length, ◌==◌, All, get_elem?, arith,
}
use p4ls.Prelude.Int.{pos}
use p4ls.Prelude.Decimal.{is_digit, to_string, IsDigits, to_string-IsDigits, to_string-cons}
use p4ls.Lexer.{TokenId, t_number, t_end, Lexer, Lexed, new_lexer, get, advance, keyword}
use p4ls.Lexer.Words.{IsWord, read_identifier-append}
use p4ls.Lexer.Number.Reading.{read_number-decimal}
use p4ls.Lexer.Scan.{is_space, is_alpha, space_loop, skip_space, next_on, next}
use Lexed.{returns}
use p4ls.Lexer.Scan.Symbols.{symbols, at_blank, Read, ReadSymbol, next-symbols, All-get_elem?}

-- The lexemes that are written with a blank behind each: the symbol at a place of the table, a word,
-- and a number.
pub data Lexeme : Type 0 where
  symbol : ℕ → Bytes → TokenId → Lexeme
  word : ℕ → Bytes → Lexeme
  number : ℕ → Lexeme

abbrev pub IsLexeme : Lexeme → Type 0
IsLexeme (symbol i s t) = get_elem? symbols i ≡ some (s, t)
IsLexeme (word c cs) = ((is_alpha c || c == b'_') ≡ true) × IsWord cs
IsLexeme (number n) = n < 2 ^ 31

abbrev pub text_of : Lexeme → Bytes
text_of (symbol i s t) = s
text_of (word c cs) = c ∷ cs
text_of (number n) = to_string n

abbrev pub token_of : Lexeme → TokenId
token_of (symbol i s t) = t
token_of (word c cs) = keyword (c ∷ cs)
token_of (number n) = t_number

skip_blank :
    (l : Lexer) (c : ℕ) (s : Bytes)
    → is_space c ≡ false
    → skip_space (at_blank l (c ∷ s))
      ≡ record l { rest = s; failed = false; last = c; col = l.col + 1 }
unfolding skip_space space_loop advance get
skip_blank l c s n = ground (arith, n)

next-word :
    (l : Lexer) (c : ℕ) (cs more : Bytes)
    → (is_alpha c || c == b'_') ≡ true
    → IsWord cs
    → Read (next (at_blank l ((c ∷ cs) ++ b' ' ∷ more))) (keyword (c ∷ cs)) more
unfolding next next_on
next-word l c cs more a w =
    let blank = skip_blank l c (cs ++ b' ' ∷ more) (ground arith) in
    let l' = record l { rest = cs ++ b' ' ∷ more; failed = false; last = c; col = l.col + 1 } in
    let reads = read_identifier-append l' cs b' ' more refl refl w refl in
    (record l { text = c ∷ cs; col = l.col + 1 + length cs + 1 }, ground (arith, blank, a, reads))

next-number :
    (l : Lexer) (n : ℕ) (more : Bytes)
    → n < 2 ^ 31
    → Read (next (at_blank l (to_string n ++ b' ' ∷ more))) t_number more
unfolding next next_on
next-number l n more h =
    let (c, s, e) = to_string-cons n in
    let digit : is_digit c ≡ true = (subst IsDigits e (to_string-IsDigits n)).0 in
    let l' = record l { rest = s ++ b' ' ∷ more; failed = false; last = c; col = l.col + 1 } in
    let blank = skip_blank l c (s ++ b' ' ∷ more) (ground (arith, digit)) in
    let reads =
      read_number-decimal l' n b' ' more h refl (ap (λ t. t ++ b' ' ∷ more) (sym e)) refl in
    (
      record l { row = l.row + 0; col = l.col + 1 + length (to_string n); value = pos n },
      ground (arith, blank, digit, reads, e),
    )

-- Behind one of these lexemes and a blank, its token has been read.
next-lexeme :
    (l : Lexer) (x : Lexeme) (more : Bytes)
    → IsLexeme x
    → Read (next (at_blank l (text_of x ++ b' ' ∷ more))) (token_of x) more
next-lexeme l (symbol i s t) more h =
    let (col, reads) = All-get_elem? (ReadSymbol l more) symbols i (s, t) (next-symbols l more) h in
    (record l { col = col }, reads)
next-lexeme l (word c cs) more h = next-word l c cs more h.0 h.1
next-lexeme l (number n) more h = next-number l n more h

abbrev pub print : List Lexeme → Bytes
print [] = []
print (x ∷ xs) = text_of x ++ b' ' ∷ print xs

-- The tokens of the first `n` calls, where each of them returns.
unfoldable pub tokens : ℕ → Lexer → Option (List TokenId)
tokens zero l = some []
tokens (suc n) l = elim (next l) [
  | returns t l' ↦ elim (tokens n l') [ none ↦ none | some ts ↦ some (t ∷ ts) ]
  | _ ↦ none
]

tokens-at_blank :
    (l : Lexer) (xs : List Lexeme)
    → All IsLexeme xs
    → tokens (suc (length xs)) (at_blank l (print xs)) ≡ some (map token_of xs ++ t_end ∷ [])
unfolding tokens
tokens-at_blank l [] h =
    unfold next in
    unfold next_on in unfold skip_space in unfold space_loop in unfold advance in unfold get in refl
tokens-at_blank l (x ∷ xs) h =
    let (l', reads) = next-lexeme l x (print xs) h.0 in
    ground (arith, reads, tokens-at_blank l' xs h.1)

-- A text of symbols, words and decimal numbers below 2 ^ 31, with a blank behind each, is read by a
-- new lexer as their tokens and then the end, each call returning.
pub tokens-print :
    (xs : List Lexeme)
    → All IsLexeme xs
    → tokens (suc (length xs)) (new_lexer (print xs)) ≡ some (map token_of xs ++ t_end ∷ [])
unfolding new_lexer
tokens-print xs h = tokens-at_blank (new_lexer []) xs h
