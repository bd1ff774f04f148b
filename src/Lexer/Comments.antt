-- ===== src/Lexer/Comments.antt =====
-- Comments: where they end, what they count, and that an open one never ends.
use p4ls.Prelude.{
  ℕ, zero, suc, ◌+◌, ◌≤◌, ◌≡◌, refl, ◌∙◌, Bool, true, false, none, some, [], ◌∷◌, ◌++◌, Bytes,
  length, ◌==◌, if◌then◌else◌, All, count, Bool-cases, List-cases, inl, inr, ap, arith,
}
use p4ls.Lexer.{Lexer, eof, get, advance, split_at_newline, skip_line, comment_loop, read_comment}

-- Input that holds neither a slash nor a NUL.
abbrev pub Open : Lexer → Type 0
Open l = (count b'/' l.rest ≡ 0) × (count 0 l.rest ≡ 0)

advance-Open :
    (l : Lexer)
    → Open l
    → (l.last == b'/') ≡ false
    → (l.last == 0) ≡ false
    → Open (advance l) × ((advance l).last == b'/' ≡ false) × ((advance l).last == 0 ≡ false)
unfolding advance get
advance-Open l (s, n) a b = elim (Bool-cases l.failed) [
  | inl f ↦ ((ground arith, ground arith), ground arith, ground arith)
  | inr f ↦ elim (List-cases l.rest) [
    | inl e ↦ ((ground arith, ground arith), ground arith, ground arith)
    | inr (c, cs, e) ↦ ((ground arith, ground arith), ground arith, ground arith)
  ]
]

comment_loop-Open :
    (fuel : ℕ) (stars : Bool) (l : Lexer)
    → Open l
    → (l.last == b'/') ≡ false
    → (l.last == 0) ≡ false
    → comment_loop fuel stars l ≡ none
unfolding comment_loop
comment_loop-Open zero stars l o a b = refl
comment_loop-Open (suc fuel) stars l o a b =
    let (o', a', b') = advance-Open l o a b in
    ground (
      arith,
      comment_loop-Open fuel true (advance l) o' a' b',
      comment_loop-Open fuel false (advance l) o' a' b',
    )

-- A block comment that is not closed is read for ever: on input that holds neither a slash nor a
-- NUL, the loops have not ended after any number of rounds, the end of the input included.
pub read_comment-Open : (fuel : ℕ) (l : Lexer) → l.last ≡ b'*' → Open l → read_comment fuel l ≡ none
unfolding read_comment
read_comment-Open fuel l e o = ground (arith, comment_loop-Open fuel false l o)

-- The inside of a comment: no asterisk, no NUL and no byte 255.
abbrev pub IsInside : Bytes → Type 0
IsInside = All (λ c. ((c == b'*') ≡ false) × ((c == 0) ≡ false) × ((c == eof) ≡ false))

advance-step :
    (l : Lexer) (c : ℕ) (cs : Bytes)
    → (l.last == eof) ≡ false
    → l.failed ≡ false
    → l.rest ≡ c ∷ cs
    → (col : ℕ) × (advance l
        ≡ record l { rest = cs; last = c; row = l.row + (if c == b'\n' then 1 else 0); col = col })
unfolding advance get
advance-step l c cs e f r = elim (Bool-cases (c == b'\n')) [
  | inl n ↦ (0, ground arith)
  | inr n ↦ (l.col + 1, ground arith)
]

comment_loop-end :
    (fuel : ℕ) (l next after : Lexer)
    → advance l ≡ next
    → next.last ≡ b'*'
    → advance next ≡ after
    → after.last ≡ b'/'
    → comment_loop (suc (suc fuel)) false l ≡ some (record after { last = 0 })
unfolding comment_loop
comment_loop-end fuel l next after a s b t = ground arith

comment_loop-inside :
    (fuel : ℕ) (l next : Lexer)
    → advance l ≡ next
    → (next.last == b'*') ≡ false
    → (next.last == 0) ≡ false
    → comment_loop (suc fuel) false l ≡ comment_loop fuel false next
unfolding comment_loop
comment_loop-inside fuel l next a s z = ground arith

comment_loop-closed :
    (fuel : ℕ) (body more : Bytes) (l : Lexer)
    → length body + 2 ≤ fuel
    → IsInside body
    → (l.last == eof) ≡ false
    → l.failed ≡ false
    → l.rest ≡ body ++ (b'*' ∷ b'/' ∷ more)
    → (col : ℕ) × (comment_loop fuel false l
        ≡ some (record l { rest = more; last = 0; row = l.row + count b'\n' body; col = col }))
comment_loop-closed zero body more l n p e f r = absurd (omega (arith, n))
comment_loop-closed (suc zero) body more l n p e f r = absurd (omega (arith, n))
comment_loop-closed (suc (suc fuel)) [] more l n p e f r =
    let (c, one) = advance-step l b'*' (b'/' ∷ more) e f r in
    let (d, two) =
      advance-step (record l { rest = b'/' ∷ more; last = b'*'; row = l.row + 0; col = c }) b'/'
        more refl f refl in
    (
      d,
      comment_loop-end fuel l _ _ one refl two refl
          ∙ ap (λ n. some (record l { rest = more; last = 0; row = n; col = d })) (omega arith),
    )
comment_loop-closed (suc (suc fuel)) (b ∷ body) more l n p e f r =
    let (c, one) = advance-step l b (body ++ (b'*' ∷ b'/' ∷ more)) e f r in
    let next = record l {
      rest = body ++ (b'*' ∷ b'/' ∷ more);
      last = b;
      row = l.row + (if b == b'\n' then 1 else 0);
      col = c;
    } in
    let (d, ends) =
      comment_loop-closed (suc fuel) body more next (omega (arith, n)) p.1 p.0.2 f refl in
    (
      d,
      comment_loop-inside (suc fuel) l next one p.0.0 p.0.1
          ∙ ends
          ∙ ap (λ n. some (record l { rest = more; last = 0; row = n; col = d })) (omega arith),
    )

-- A block comment whose inside holds no asterisk, no NUL and no byte 255 is read to its end, given a
-- round for each of its characters and two more: the current character is then the one behind the
-- comment, and the row has counted every line feed of the comment, and that character if it is one.
pub read_comment-closed :
    (fuel : ℕ) (body more : Bytes) (c : ℕ) (l : Lexer)
    → length body + 2 ≤ fuel
    → IsInside body
    → l.last ≡ b'*'
    → l.failed ≡ false
    → l.rest ≡ body ++ (b'*' ∷ b'/' ∷ c ∷ more)
    → (col : ℕ) × (read_comment fuel l
        ≡ some (record l {
          rest = more;
          last = c;
          row = l.row + count b'\n' body + (if c == b'\n' then 1 else 0);
          col = col;
        }))
unfolding read_comment
read_comment-closed fuel body more c l n p e f r =
    let (d, ends) = comment_loop-closed fuel body (c ∷ more) l n p (ground arith) f r in
    let end = record l { rest = c ∷ more; last = 0; row = l.row + count b'\n' body; col = d } in
    let (col, step) = advance-step end c more refl f refl in (col, ground (arith, ends, step))

-- A line comment with nothing behind its two slashes loses the rest of the input: the stream has
-- failed, and every character read from then on is the end of the input.
empty_comment_fails :
    (fuel : ℕ) (more : Bytes) (l : Lexer)
    → l.last ≡ b'/'
    → l.failed ≡ false
    → l.rest ≡ b'\n' ∷ more
    → (l' : Lexer) × (read_comment fuel l ≡ some l')
      × (l'.last ≡ eof)
      × ((next : Lexer) → next.failed ≡ l'.failed → (get next).last ≡ eof)
unfolding read_comment skip_line split_at_newline advance get
empty_comment_fails fuel more l e f r = (
  record l { failed = true; last = eof; col = l.col + 1 },
  ground arith,
  refl,
  λ next failed. ground arith,
)
