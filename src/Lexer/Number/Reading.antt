-- ===== src/Lexer/Number/Reading.antt =====
-- What numbers are read as: decimal digits, and the parts of what follows a width.
use p4ls.Prelude.{
  ℕ, suc, ◌+◌, ◌%◌, ◌^◌, ◌≤◌, ◌<◌, ◌≡◌, refl, sym, ◌∙◌, subst, ap, Bool, true, false, ◌&&◌, Option,
  none, some, [], ◌∷◌, ◌++◌, Bytes, length, ltb, leb, ◌==◌, if◌then◌else◌, Bool-cases, inl, inr,
  length-append, arith,
}
use p4ls.Prelude.Int.{pos}
use p4ls.Prelude.Decimal.{
  is_digit, value_of, to_string, IsDigits, value_of-to_string, to_string-IsDigits, to_string-cons,
}
use p4ls.Lexer.{t_unknown, t_number, Lexer, Lexed}
use p4ls.Lexer.Number.{
  in_number, NumberMatch, all_in, some_in, match_number, in_base, masked, read_digits, evaluate,
  read_number,
}
use Lexed.{returns, throws, undefined}
use p4ls.Lexer.Number.Values.{twos, masked-twos, masked-plain}
use p4ls.Lexer.Number.Characters.{
  IsNumber, digits-IsNumber, number_loop-append, all_in-digits, stoi_base-digits,
}
use p4ls.Lexer.Number.Matching.{match_number-to_string}

-- The lexer behind a number: the characters are taken, and `c` is the current one.
abbrev pub behind : Lexer → Bytes → ℕ → Bytes → Lexer
behind l numstr c more = record l {
  rest = more;
  last = c;
  row = l.row + (if c == b'\n' then 1 else 0);
  col = if c == b'\n' then 0 else l.col + length numstr;
}

-- What a number with a width means, and where it has no meaning.
abbrev pub literal : ℕ → Bool → ℕ → Lexer → Lexed
literal width is_signed n l =
    if leb (2 ^ 31) width
    then throws
    else if leb 31 width
    then undefined
    else if is_signed && ltb width 2
    then returns t_unknown (record l { width = width })
    else if leb (2 ^ 31) n
    then throws
    else returns t_number (record l {
      width = width;
      value = if is_signed then twos width n else pos (n % 2 ^ width);
    })

read_digits-digits :
    (mask : Option (ℕ × Bool)) (prefix : Option (Bytes × ℕ)) (c : ℕ) (s : Bytes) (n : ℕ) (l : Lexer)
    → IsDigits (c ∷ s)
    → value_of 0 (c ∷ s) ≡ n
    → read_digits mask (record { prefix = prefix; base = 10; digits = c ∷ s }) l
      ≡ (if leb (2 ^ 31) n then throws else returns t_number (record l { value = masked mask n }))
unfolding read_digits some_in
read_digits-digits mask prefix c s n l d v =
    let digit : (b : ℕ) → is_digit b ≡ true → in_base 10 b ≡ true =
      λ b h. unfold in_base in ground (arith, h) in
    let digits : all_in (in_base 10) s ≡ true = all_in-digits (in_base 10) s digit d.1 in
    ground (arith, digit c d.0, digits, stoi_base-digits c s d, v)

read_digits-to_string :
    (mask : Option (ℕ × Bool)) (prefix : Option (Bytes × ℕ)) (n : ℕ) (l : Lexer)
    → read_digits mask (record { prefix = prefix; base = 10; digits = to_string n }) l
      ≡ (if leb (2 ^ 31) n then throws else returns t_number (record l { value = masked mask n }))
read_digits-to_string mask prefix n l =
    let (c, s, e) = to_string-cons n in
    rw e (
      read_digits-digits mask prefix c s n l (subst IsDigits e (to_string-IsDigits n))
        (ap (value_of 0) (sym e) ∙ value_of-to_string n))

-- What is made of digits that mean `n`.
abbrev pub Reads : ℕ → Bytes → ℕ → Type 0
Reads base digits n =
    (mask : Option (ℕ × Bool)) (prefix : Option (Bytes × ℕ)) (l : Lexer)
    → read_digits mask (record { prefix = prefix; base = base; digits = digits }) l
      ≡ (if leb (2 ^ 31) n then throws else returns t_number (record l { value = masked mask n }))

pub evaluate-Reads :
    (width letter base n : ℕ) (digits : Bytes) (l : Lexer)
    → Reads base digits n
    → evaluate (record { prefix = some (to_string width, letter); base = base; digits = digits }) l
      ≡ literal width (letter == b's') n l
unfolding evaluate
evaluate-Reads width letter base n digits l reads =
    let is_signed = letter == b's' in
    let prefix = some (to_string width, letter) in
    let read = reads (some (width, is_signed)) prefix (record l { width = width }) in
    rw (value_of-to_string width) (elim (Bool-cases (letter == b's')) [
      | inl e ↦ elim (Bool-cases (ltb width 2)) [
        | inl small ↦ ground (arith, e, read)
        | inr large ↦ ground (arith, e, read, masked-twos width n (ground arith))
      ]
      | inr e ↦ ground (arith, e, read, masked-plain width n)
    ])

-- What is made of the characters of a number.
abbrev pub of_match : Option NumberMatch → Lexer → Lexed
of_match none l = returns t_unknown l
of_match (some m) l = evaluate m l

pub read_number-of_match :
    (l : Lexer) (numstr : Bytes) (c : ℕ) (more : Bytes)
    → 1 ≤ length numstr
    → l.failed ≡ false
    → l.last ∷ l.rest ≡ numstr ++ c ∷ more
    → IsNumber numstr
    → in_number c ≡ false
    → read_number l ≡ of_match (match_number numstr) (behind l numstr c more)
unfolding read_number
read_number-of_match l [] c more h f r w n = absurd (omega (arith, h))
read_number-of_match l (d ∷ word) c more h f r w n =
    let first : l.last ≡ d = ground (arith, r) in
    let others : l.rest ≡ word ++ c ∷ more = ground (arith, r) in
    let shorter : length word < suc (length l.rest) =
      omega (arith, ap length others, length-append word (c ∷ more)) in
    let loop =
      number_loop-append (suc (length l.rest)) l word c more shorter f (ground (arith, first, w))
        others w.1 n in
    ground (arith, loop, first)

evaluate-decimal :
    (n : ℕ) (l : Lexer)
    → n < 2 ^ 31
    → evaluate (record { prefix = none; base = 10; digits = to_string n }) l
      ≡ returns t_number (record l { value = pos n })
unfolding evaluate masked
evaluate-decimal n l h = ground (arith, read_digits-to_string none none n l, h)

pub IsNumber-append : (s t : Bytes) → IsNumber s → IsNumber t → IsNumber (s ++ t)
IsNumber-append [] t p q = q
IsNumber-append (c ∷ s) t p q = (p.0, IsNumber-append s t p.1 q)

pub to_string-length : (n : ℕ) → 1 ≤ length (to_string n)
to_string-length n = let (c, s, e) = to_string-cons n in rw e (omega arith)

-- A decimal number below 2 ^ 31 that is followed by no character of a number is read as itself, and
-- the width stays what it was.
pub read_number-decimal :
    (l : Lexer) (n c : ℕ) (more : Bytes)
    → n < 2 ^ 31
    → l.failed ≡ false
    → l.last ∷ l.rest ≡ to_string n ++ c ∷ more
    → in_number c ≡ false
    → read_number l ≡ returns t_number (record (behind l (to_string n) c more) { value = pos n })
read_number-decimal l n c more h f r s =
    read_number-of_match l (to_string n) c more (to_string-length n) f r
      (digits-IsNumber (to_string n) (to_string-IsDigits n)) s
    ∙ ap (λ m. of_match m (behind l (to_string n) c more)) (match_number-to_string n)
    ∙ evaluate-decimal n (behind l (to_string n) c more) h

pub letter-in_number : (b : Bool) → in_number (if b then b's' else b'w') ≡ true
letter-in_number true = refl
letter-in_number false = refl
