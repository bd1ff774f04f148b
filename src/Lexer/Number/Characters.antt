-- ===== src/Lexer/Number/Characters.antt =====
-- The characters of a number: which are taken, and how they are matched.
use p4ls.Prelude.{
  ℕ, zero, suc, ◌+◌, ◌-◌, ◌*◌, ◌^◌, ◌<◌, ◌≡◌, refl, Bool, true, false, none, some, [], ◌∷◌, ◌++◌,
  Bytes, length, leb, ◌==◌, if◌then◌else◌, All, ◌⊎◌, arith,
}
use p4ls.Prelude.Decimal.{is_digit, value_of, IsDigits}
use p4ls.Lexer.{Lexer, get, advance}
use p4ls.Lexer.Number.{
  in_number, number_loop, split_width, digit_or_underscore, all_in, some_in, base_of, split_base,
  digit_value, digits_value, stoi_base,
}

abbrev pub IsNumber : Bytes → Type 0
IsNumber = All (λ c. in_number c ≡ true)

advance-char :
    (l : Lexer) (c : ℕ) (cs : Bytes)
    → l.failed ≡ false
    → in_number l.last ≡ true
    → l.rest ≡ c ∷ cs
    → advance l ≡ record l {
      rest = cs;
      last = c;
      row = l.row + (if c == b'\n' then 1 else 0);
      col = if c == b'\n' then 0 else l.col + 1;
    }
unfolding advance get
advance-char l c cs f i r = ground arith

pub number_loop-append :
    (fuel : ℕ) (l : Lexer) (word : Bytes) (c : ℕ) (more : Bytes)
    → length word < fuel
    → l.failed ≡ false
    → in_number l.last ≡ true
    → l.rest ≡ word ++ c ∷ more
    → IsNumber word
    → in_number c ≡ false
    → number_loop fuel l ≡ (
      l.last ∷ word,
      record l {
        rest = more;
        last = c;
        row = l.row + (if c == b'\n' then 1 else 0);
        col = if c == b'\n' then 0 else l.col + length word + 1;
      },
    )
unfolding number_loop
number_loop-append zero l word c more h f i r w n = absurd (omega (arith, h))
number_loop-append (suc fuel) l [] c more h f i r w n = ground (arith, advance-char l c more f i r)
number_loop-append (suc fuel) l (d ∷ word) c more h f i r w n =
    let next : Lexer = record l { rest = word ++ c ∷ more; last = d; col = l.col + 1 } in
    let step : advance l ≡ next = ground (arith, advance-char l d (word ++ c ∷ more) f i r, w) in
    let rest = number_loop-append fuel next word c more (omega (arith, h)) f w.0 refl w.1 n in
    ground (arith, step, rest, w)

-- Texts of digits.
pub digits-IsNumber : (s : Bytes) → IsDigits s → IsNumber s
digits-IsNumber [] d = tt
digits-IsNumber (c ∷ s) d = (ground (arith, d), digits-IsNumber s d.1)

pub split_width-digits : (s : Bytes) → IsDigits s → split_width s ≡ none
unfolding split_width
split_width-digits [] d = refl
split_width-digits (c ∷ []) d = ground arith
split_width-digits (c ∷ c' ∷ s) d = ground (arith, split_width-digits (c' ∷ s) d.1, d)

pub split_width-append :
    (c : ℕ) (cs rest : Bytes) (letter : ℕ)
    → IsDigits (c ∷ cs)
    → (letter ≡ b's') ⊎ (letter ≡ b'w')
    → split_width ((c ∷ cs) ++ letter ∷ rest) ≡ some (c ∷ cs, letter, rest)
unfolding split_width
split_width-append c [] rest letter d which = ground (arith, d, which)
split_width-append c (c' ∷ cs) rest letter d which =
    ground (arith, split_width-append c' cs rest letter d.1 which, d)

pub all_in-digits :
    (p : ℕ → Bool) (s : Bytes)
    → ((c : ℕ) → is_digit c ≡ true → p c ≡ true)
    → IsDigits s
    → all_in p s ≡ true
unfolding all_in
all_in-digits p [] h d = refl
all_in-digits p (c ∷ s) h d = rw (h c d.0) (all_in-digits p s h d.1)

pub split_base-digits :
    (c : ℕ) (s : Bytes) → IsDigits (c ∷ s) → split_base (c ∷ s) ≡ some (10, c ∷ s)
unfolding split_base some_in base_of
split_base-digits c [] d =
    ground (arith, d, all_in-digits digit_or_underscore [] (λ c h. ground arith) d.1)
split_base-digits c (c' ∷ s) d =
    ground (arith, d, all_in-digits digit_or_underscore (c' ∷ s) (λ c h. ground arith) d.1)

digits_value-digits : (acc : ℕ) (s : Bytes) → IsDigits s → digits_value 10 acc s ≡ value_of acc s
unfolding digits_value value_of
digits_value-digits acc [] d = refl
digits_value-digits acc (c ∷ s) d =
    let digit : digit_value c ≡ c - b'0' = unfold digit_value in ground (arith, d.0) in
    let plain : (c == b'_') ≡ false = ground (arith, d.0) in
    rw plain (rw digit (digits_value-digits (acc * 10 + (c - b'0')) s d.1))

pub stoi_base-digits :
    (c : ℕ) (s : Bytes)
    → IsDigits (c ∷ s)
    → stoi_base 10 (c ∷ s)
      ≡ (if leb (2 ^ 31) (value_of 0 (c ∷ s)) then none else some (value_of 0 (c ∷ s)))
unfolding stoi_base
stoi_base-digits c s d = ground (arith, d, digits_value-digits 0 (c ∷ s) d)
