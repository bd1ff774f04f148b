-- ===== src/Lexer/Scan/Shapes.antt =====
-- How `read_other` uses the function for the next token: behind a line marker or a comment, with
-- fewer characters left.
use p4ls.Prelude.{
  ℕ, suc, ◌<◌, ◌≡◌, ◌≢◌, refl, Bool, true, false, ◌⊎◌, inl, inr, length, ◌==◌, if◌then◌else◌,
  List-cases, Option-cases, arith,
}
use p4ls.Lexer.{
  TokenId, Lexer, eof, advance, Lexed, split_at_newline, skip_line, read_location, read_comment,
}
use p4ls.Lexer.Scan.{
  read_marker, read_slash, read_other, read_not, read_and, read_plus, read_dot, read_less,
  read_equal, read_greater, read_at, read_bar,
}
use Lexed.{returns, out_of_fuel}
use p4ls.Lexer.Scan.Lengths.{read_location-length, read_comment-length}

-- What `read_other` does with the function for the next token: it calls it behind a line marker or a
-- comment, or not at all.
pub data Shape : Lexer → ((Lexer → Lexed) → Lexed) → Type 0 where
  marker : (l : Lexer) → Shape l (λ f. read_marker f l)
  slash : (l : Lexer) → Shape l (λ f. read_slash f l)
  plain : (l : Lexer) (t : TokenId) (l' : Lexer) → Shape l (λ f. returns t l')

if_shape :
    (l : Lexer) (b : Bool) (F G : (Lexer → Lexed) → Lexed)
    → Shape l F
    → Shape l G
    → Shape l (λ f. if b then F f else G f)
if_shape l true F G x y = x
if_shape l false F G x y = y

if_plain :
    (l : Lexer) (b : Bool) (x y : Lexed)
    → Shape l (λ f. x)
    → Shape l (λ f. y)
    → Shape l (λ f. if b then x else y)
if_plain l b x y p q = if_shape l b (λ f. x) (λ f. y) p q

read_not-Shape : (l : Lexer) → Shape l (λ f. read_not l)
unfolding read_not
read_not-Shape l = if_plain _ (l.last == b'=') _ _ (plain _ _ _) (plain _ _ _)

read_and-Shape : (l : Lexer) → Shape l (λ f. read_and l)
unfolding read_and
read_and-Shape l =
    if_plain _ (l.last == b'&') _ _
      (if_plain _ ((advance l).last == b'&') _ _ (plain _ _ _) (plain _ _ _)) (plain _ _ _)

read_plus-Shape : (l : Lexer) → Shape l (λ f. read_plus l)
unfolding read_plus
read_plus-Shape l = if_plain _ (l.last == b'+') _ _ (plain _ _ _) (plain _ _ _)

read_dot-Shape : (l : Lexer) → Shape l (λ f. read_dot l)
unfolding read_dot
read_dot-Shape l = if_plain _ (l.last == b'.') _ _ (plain _ _ _) (plain _ _ _)

read_less-Shape : (l : Lexer) → Shape l (λ f. read_less l)
unfolding read_less
read_less-Shape l =
    if_plain _ (l.last == b'<') _ _ (plain _ _ _)
      (if_plain _ (l.last == b'=') _ _ (plain _ _ _) (plain _ _ _))

read_equal-Shape : (l : Lexer) → Shape l (λ f. read_equal l)
unfolding read_equal
read_equal-Shape l = if_plain _ (l.last == b'=') _ _ (plain _ _ _) (plain _ _ _)

read_greater-Shape : (l : Lexer) → Shape l (λ f. read_greater l)
unfolding read_greater
read_greater-Shape l = if_plain _ (l.last == b'=') _ _ (plain _ _ _) (plain _ _ _)

read_at-Shape : (l : Lexer) → Shape l (λ f. read_at l)
unfolding read_at
read_at-Shape l = if_plain _ (l.last == b'p') _ _ (plain _ _ _) (plain _ _ _)

read_bar-Shape : (l : Lexer) → Shape l (λ f. read_bar l)
unfolding read_bar
read_bar-Shape l =
    if_plain _ (l.last == b'+') _ _
      (if_plain _ ((advance l).last == b'|') _ _ (plain _ _ _) (plain _ _ _))
      (if_plain _ (l.last == b'-') _ _
        (if_plain _ ((advance l).last == b'|') _ _ (plain _ _ _) (plain _ _ _))
        (if_plain _ (l.last == b'|') _ _ (plain _ _ _) (plain _ _ _)))

pub read_other-Shape : (l : Lexer) → Shape (advance l) (λ f. read_other f l)
unfolding read_other
read_other-Shape l = if_shape _ (l.last == b'!') _ _ (read_not-Shape (advance l)) (
    if_shape _ (l.last == b'"') _ _ (plain _ _ _) (
      if_shape _ (l.last == b'#') _ _ (marker _) (
        if_shape _ (l.last == b'%') _ _ (plain _ _ _) (
          if_shape _ (l.last == b'&') _ _ (read_and-Shape (advance l)) (
            if_shape _ (l.last == b'(') _ _ (plain _ _ _) (
              if_shape _ (l.last == b')') _ _ (plain _ _ _) (
                if_shape _ (l.last == b'*') _ _ (plain _ _ _) (
                  if_shape _ (l.last == b'+') _ _ (read_plus-Shape (advance l)) (
                    if_shape _ (l.last == b',') _ _ (plain _ _ _) (
                      if_shape _ (l.last == b'-') _ _ (plain _ _ _) (
                        if_shape _ (l.last == b'.') _ _ (read_dot-Shape (advance l)) (
                          if_shape _ (l.last == b'/') _ _ (slash _) (
                            if_shape _ (l.last == b':') _ _ (plain _ _ _) (
                              if_shape _ (l.last == b';') _ _ (plain _ _ _) (
                                if_shape _ (l.last == b'<') _ _ (read_less-Shape (advance l)) (
                                  if_shape _ (l.last == b'=') _ _ (read_equal-Shape (advance l)) (
                                    if_shape _ (l.last == b'>') _ _ (read_greater-Shape (advance l))
                                      (if_shape _ (l.last == b'?') _ _ (plain _ _ _) (
                                        if_shape _ (l.last == b'@') _ _ (read_at-Shape (advance l))
                                          (if_shape _ (l.last == b'[') _ _ (plain _ _ _) (
                                            if_shape _ (l.last == b']') _ _ (plain _ _ _) (
                                              if_shape _ (l.last == b'^') _ _ (plain _ _ _) (
                                                if_shape _ (l.last == b'{') _ _ (plain _ _ _) (
                                                  if_shape _ (l.last == b'|') _ _
                                                    (read_bar-Shape (advance l))
                                                    (if_shape _ (l.last == b'}') _ _ (plain _ _ _) (
                                                      if_shape _ (l.last == b'~') _ _ (plain _ _ _)
                                                        (plain _ _ _)))))))))))))))))))))))))))

read_location-eof : (l : Lexer) → l.last ≡ eof → (read_location l).last ≡ eof
unfolding read_location advance skip_line
read_location-eof l e = elim (List-cases (split_at_newline l.rest).0) [
  | inl n ↦ ground (arith, n)
  | inr (c, cs, n) ↦ ground (arith, n)
]

-- Where the character behind the first is the end, or fewer than `n` are left behind it, only
-- inputs with fewer than `n` characters are given to the function for the next token.
module _ (n : ℕ) (f g : Lexer → Lexed) where
  marker-same :
      (l : Lexer)
      → (l.last ≡ eof) ⊎ (length l.rest < n)
      → ((l' : Lexer) → length l'.rest < n → f l' ≡ g l')
      → read_marker f l ≡ read_marker g l
  unfolding read_marker
  marker-same l (inl e) agree = ground (arith, read_location-eof l e)
  marker-same l (inr short) agree =
      ground (arith, agree (read_location l) (omega (arith, read_location-length l, short)))

  slash-same :
      (l : Lexer)
      → (l.last ≡ eof) ⊎ (length l.rest < n)
      → ((l' : Lexer) → length l'.rest < n → f l' ≡ g l')
      → read_slash f l ≡ read_slash g l
  unfolding read_slash
  slash-same l (inl e) agree = ground (arith, e)
  slash-same l (inr short) agree =
      elim (Option-cases (read_comment (suc (suc (length l.rest))) l)) [
        | inl o ↦ ground (arith, o)
        | inr (l', o) ↦ ground (
          arith,
          o,
          agree l' (omega (arith, read_comment-length (suc (suc (length l.rest))) l l' o, short)),
        )
      ]

  pub Shape-same :
      (l : Lexer) (F : (Lexer → Lexed) → Lexed)
      → Shape l F
      → (l.last ≡ eof) ⊎ (length l.rest < n)
      → ((l' : Lexer) → length l'.rest < n → f l' ≡ g l')
      → F f ≡ F g
  Shape-same l _ (marker _) shorter agree = marker-same l shorter agree
  Shape-same l _ (slash _) shorter agree = slash-same l shorter agree
  Shape-same l _ (plain _ t l') shorter agree = refl

  marker-ended :
      (l : Lexer)
      → (l.last ≡ eof) ⊎ (length l.rest < n)
      → ((l' : Lexer) → length l'.rest < n → f l' ≢ out_of_fuel)
      → read_marker f l ≢ out_of_fuel
  unfolding read_marker
  marker-ended l (inl e) agree = ground (arith, read_location-eof l e)
  marker-ended l (inr short) agree =
      ground (arith, agree (read_location l) (omega (arith, read_location-length l, short)))

  slash-ended :
      (l : Lexer)
      → (l.last ≡ eof) ⊎ (length l.rest < n)
      → ((l' : Lexer) → length l'.rest < n → f l' ≢ out_of_fuel)
      → read_slash f l ≢ out_of_fuel
  unfolding read_slash
  slash-ended l (inl e) agree = ground (arith, e)
  slash-ended l (inr short) agree =
      elim (Option-cases (read_comment (suc (suc (length l.rest))) l)) [
        | inl o ↦ ground (arith, o)
        | inr (l', o) ↦ ground (
          arith,
          o,
          agree l' (omega (arith, read_comment-length (suc (suc (length l.rest))) l l' o, short)),
        )
      ]

  pub Shape-ended :
      (l : Lexer) (F : (Lexer → Lexed) → Lexed)
      → Shape l F
      → (l.last ≡ eof) ⊎ (length l.rest < n)
      → ((l' : Lexer) → length l'.rest < n → f l' ≢ out_of_fuel)
      → F f ≢ out_of_fuel
  Shape-ended l _ (marker _) shorter agree = marker-ended l shorter agree
  Shape-ended l _ (slash _) shorter agree = slash-ended l shorter agree
  Shape-ended l _ (plain _ t l') shorter agree = ground arith
