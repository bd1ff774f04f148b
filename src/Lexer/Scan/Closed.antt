-- ===== src/Lexer/Scan/Closed.antt =====
-- Where no asterisk is ahead, no block comment is opened, and the search for a token ends.
use p4ls.Prelude.{
  ℕ, zero, suc, ◌≡◌, ◌≢◌, refl, false, [], ◌∷◌, inl, inr, Bytes, length, ◌==◌, count, Bool-cases,
  List-cases, Option-cases, arith,
}
use p4ls.Lexer.{
  Lexer, eof, get, advance, Lexed, split_at_newline, skip_line, read_location, read_comment,
}
use p4ls.Lexer.Number.{number_loop, match_number, NumberMatch, read_digits, evaluate, read_number}
use p4ls.Lexer.Scan.{space_loop, skip_space, read_marker, read_slash, next_on}
use p4ls.Lexer.Scan.Shapes.{Shape, marker, slash, plain, read_other-Shape}
use Lexed.{endless}

-- No asterisk is ahead.
abbrev pub Clean : Lexer → Type 0
Clean l = count b'*' l.rest ≡ 0

advance-Clean : (l : Lexer) → Clean l → Clean (advance l) × (((advance l).last == b'*') ≡ false)
unfolding advance get
advance-Clean l h = elim (Bool-cases (l.last == eof)) [
  | inl e ↦ (ground (arith, e, h), ground (arith, e))
  | inr e ↦ elim (Bool-cases l.failed) [
    | inl f ↦ (ground (arith, e, f, h), ground (arith, e, f))
    | inr f ↦ elim (List-cases l.rest) [
      | inl r ↦ (ground (arith, e, f, r), ground (arith, e, f, r))
      | inr (c, cs, r) ↦ (ground (arith, e, f, r, h), ground (arith, e, f, r, h))
    ]
  ]
]

split_at_newline-count : (s : Bytes) → count b'*' s ≡ 0 → count b'*' (split_at_newline s).1 ≡ 0
unfolding split_at_newline
split_at_newline-count [] h = refl
split_at_newline-count (c ∷ cs) h = ground (arith, split_at_newline-count cs, h)

skip_line-Clean : (l : Lexer) → Clean l → Clean (skip_line l)
unfolding skip_line
skip_line-Clean l h = elim (List-cases (split_at_newline l.rest).0) [
  | inl e ↦ ground (arith, e, h)
  | inr (c, cs, e) ↦ ground (arith, e, h, split_at_newline-count l.rest h)
]

space_loop-Clean : (fuel : ℕ) (l : Lexer) → Clean l → Clean (space_loop fuel l)
unfolding space_loop
space_loop-Clean zero l h = h
space_loop-Clean (suc fuel) l h =
    let on = space_loop-Clean fuel (advance l) (advance-Clean l h).0 in ground (arith, on, h)

module _ (f : Lexer → Lexed) (ends : (l : Lexer) → Clean l → f l ≢ endless) where
  marker-closed : (l : Lexer) → Clean l → read_marker f l ≢ endless
  unfolding read_marker read_location
  marker-closed l h =
      let on = ends (advance (skip_line l)) (advance-Clean (skip_line l) (skip_line-Clean l h)).0 in
      ground (arith, on)

  slash-closed : (l : Lexer) → Clean l → (l.last == b'*') ≡ false → read_slash f l ≢ endless
  unfolding read_slash read_comment
  slash-closed l h s =
      let on = ends (advance (skip_line l)) (advance-Clean (skip_line l) (skip_line-Clean l h)).0 in
      ground (arith, on, s)

  Shape-closed :
      (l : Lexer) (F : (Lexer → Lexed) → Lexed)
      → Shape l F
      → Clean l
      → (l.last == b'*') ≡ false
      → F f ≢ endless
  Shape-closed l _ (marker _) h s = marker-closed l h
  Shape-closed l _ (slash _) h s = slash-closed l h s
  Shape-closed l _ (plain _ t l') h s = ground arith

evaluate-closed : (m : NumberMatch) (l : Lexer) → evaluate m l ≢ endless
unfolding evaluate read_digits
evaluate-closed m l = ground arith

read_number-closed : (l : Lexer) → read_number l ≢ endless
unfolding read_number
read_number-closed l = elim (Option-cases (match_number (number_loop (suc (length l.rest)) l).0)) [
  | inl o ↦ ground (arith, o)
  | inr (m, o) ↦ ground (arith, o, evaluate-closed m (number_loop (suc (length l.rest)) l).1)
]

pub next_on-closed : (fuel : ℕ) (l : Lexer) → Clean l → next_on fuel l ≢ endless
unfolding next_on skip_space
next_on-closed zero l h = ground arith
next_on-closed (suc fuel) l h =
    let l' = space_loop (suc (suc (length l.rest))) l in
    let clean = space_loop-Clean (suc (suc (length l.rest))) l h in
    let (clean', other) = advance-Clean l' clean in
    let ended =
      Shape-closed (next_on fuel) (next_on-closed fuel) (advance l') _ (read_other-Shape l') clean'
        other in
    ground (arith, ended, read_number-closed l')
