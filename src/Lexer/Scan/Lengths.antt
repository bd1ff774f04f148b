-- ===== src/Lexer/Scan/Lengths.antt =====
-- How much of the input each reader leaves, and that comments given up are truly endless.
use p4ls.Prelude.{
  ℕ, zero, suc, ◌≤◌, ◌<◌, ◌≡◌, refl, Bool, true, false, none, some, [], ◌∷◌, ◌⊎◌, inl, inr, Bytes,
  length, ◌==◌, Bool-cases, List-cases, Option-cases, arith,
}
use p4ls.Lexer.{
  Lexer, eof, get, advance, split_at_newline, skip_line, read_location, comment_loop, read_comment,
}
use p4ls.Lexer.Scan.{space_loop}

-- A step of the input takes a character, or finds the end.
pub advance-shorter :
    (l : Lexer) → ((advance l).last ≡ eof) ⊎ (length (advance l).rest < length l.rest)
unfolding advance get
advance-shorter l = elim (List-cases l.rest) [
  | inl e ↦ inl (ground arith)
  | inr (c, cs, e) ↦ elim (Bool-cases l.failed) [
    | inl f ↦ inl (ground arith)
    | inr f ↦ elim (Bool-cases (l.last == eof)) [
      | inl s ↦ inl (ground arith)
      | inr s ↦ inr (ground arith)
    ]
  ]
]

advance-length : (l : Lexer) → length (advance l).rest ≤ length l.rest
unfolding advance get
advance-length l = elim (List-cases l.rest) [ inl e ↦ ground arith | inr (c, cs, e) ↦ ground arith ]

split_at_newline-length : (s : Bytes) → length (split_at_newline s).1 ≤ length s
unfolding split_at_newline
split_at_newline-length [] = omega arith
split_at_newline-length (c ∷ cs) = ground (arith, split_at_newline-length cs)

skip_line-length : (l : Lexer) → length (skip_line l).rest ≤ length l.rest
unfolding skip_line
skip_line-length l = elim (List-cases (split_at_newline l.rest).0) [
  | inl e ↦ ground arith
  | inr (c, cs, e) ↦ ground (arith, split_at_newline-length l.rest)
]

pub read_location-length : (l : Lexer) → length (read_location l).rest ≤ length l.rest
unfolding read_location
read_location-length l = omega (arith, advance-length (skip_line l), skip_line-length l)

comment_loop-length :
    (fuel : ℕ) (stars : Bool) (l l' : Lexer)
    → comment_loop fuel stars l ≡ some l'
    → length l'.rest ≤ length l.rest
unfolding comment_loop
comment_loop-length zero stars l l' e = ground arith
comment_loop-length (suc fuel) stars l l' e = ground (
  arith,
  advance-length l,
  comment_loop-length fuel true (advance l) l',
  comment_loop-length fuel false (advance l) l',
)

pub read_comment-length :
    (fuel : ℕ) (l l' : Lexer) → read_comment fuel l ≡ some l' → length l'.rest ≤ length l.rest
unfolding read_comment
read_comment-length fuel l l' e = elim (Option-cases (comment_loop fuel false l)) [
  | inl n ↦ ground (arith, advance-length (skip_line l), skip_line-length l)
  | inr (m, o) ↦ ground (
    arith,
    advance-length (skip_line l),
    skip_line-length l,
    comment_loop-length fuel false l m o,
    advance-length m,
  )
]

pub space_loop-length : (fuel : ℕ) (l : Lexer) → length (space_loop fuel l).rest ≤ length l.rest
unfolding space_loop
space_loop-length zero l = omega arith
space_loop-length (suc fuel) l =
    ground (arith, advance-length l, space_loop-length fuel (advance l))

-- At the end of the input the loops of a comment turn for ever.
comment_loop-eof :
    (fuel : ℕ) (stars : Bool) (l : Lexer) → l.last ≡ eof → comment_loop fuel stars l ≡ none
unfolding comment_loop advance
comment_loop-eof zero stars l e = refl
comment_loop-eof (suc fuel) stars l e = ground (arith, comment_loop-eof fuel false l e)

comment_loop-none :
    (n : ℕ) (stars : Bool) (l : Lexer)
    → length l.rest < n
    → comment_loop n stars l ≡ none
    → (fuel : ℕ) → comment_loop fuel stars l ≡ none
unfolding comment_loop
comment_loop-none zero stars l h e fuel = absurd (omega (arith, h))
comment_loop-none (suc n) stars l h e zero = refl
comment_loop-none (suc n) stars l h e (suc fuel) = elim (advance-shorter l) [
  | inl end ↦ ground (arith, comment_loop-eof fuel false (advance l) end)
  | inr short ↦
      let shorter : length (advance l).rest < n = omega (arith, short, h) in
      let on : comment_loop n false (advance l) ≡ none
          → comment_loop fuel false (advance l) ≡ none =
        λ e'. comment_loop-none n false (advance l) shorter e' fuel in
      let starred : comment_loop n true (advance l) ≡ none
          → comment_loop fuel true (advance l) ≡ none =
        λ e'. comment_loop-none n true (advance l) shorter e' fuel in
      ground (arith, on, starred, e)
]

-- A comment whose loops have not ended after two rounds more than there are characters left has not
-- ended after any number of rounds.
read_comment-none :
    (l : Lexer) (fuel : ℕ)
    → read_comment (suc (suc (length l.rest))) l ≡ none
    → read_comment fuel l ≡ none
unfolding read_comment
read_comment-none l fuel e =
    let none_at = comment_loop-none (suc (suc (length l.rest))) false l (omega arith) in
    elim (Option-cases (comment_loop (suc (suc (length l.rest))) false l)) [
      | inl n ↦ ground (arith, none_at n fuel)
      | inr (m, o) ↦ ground (arith, o)
    ]
