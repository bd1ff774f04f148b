-- ===== src/Prelude/Decimal.antt =====
-- Decimal texts of the C++ library: `std::to_string` of an unsigned number, `std::stoull` of digits
-- and `std::stoi`. A number that does not fit its type, or that is not there, throws: `none`.
use p4ls.Prelude.{
  ℕ, zero, suc, ◌+◌, ◌-◌, ◌*◌, ◌/◌, ◌%◌, ◌^◌, ◌<◌, ◌≡◌, refl, Bool, true, ◌&&◌, ◌||◌, Option, none,
  some, [], ◌∷◌, ◌++◌, Bytes, ltb, leb, ◌==◌, if◌then◌else◌, All, arith, Bool-cases, inl, inr,
}
use p4ls.Prelude.Int.{ℤ, pos, negsuc}

abbrev pub is_digit : ℕ → Bool
is_digit c = leb b'0' c && leb c b'9'

-- The digits of `n`; `fuel` bounds their number.
digits : ℕ → ℕ → Bytes
digits zero n = []
digits (suc fuel) n =
    let rest = digits fuel (n / 10) in
    if ltb n 10 then (b'0' + n) ∷ [] else rest ++ (b'0' + n % 10) ∷ []

unfoldable pub to_string : ℕ → Bytes
unfolding digits
to_string n = digits (suc n) n

-- The number that digits stand for, behind those read so far.
unfoldable pub value_of : ℕ → Bytes → ℕ
value_of acc [] = acc
value_of acc (c ∷ cs) = value_of (acc * 10 + (c - b'0')) cs

unfoldable pub stoull : Bytes → Option ℕ
unfolding value_of
stoull s = if ltb (value_of 0 s) (2 ^ 64) then some (value_of 0 s) else none

-- The digits that a text begins with.
unfoldable pub leading_digits : Bytes → Bytes
leading_digits [] = []
leading_digits (c ∷ cs) = if is_digit c then c ∷ leading_digits cs else []

abbrev is_blank : ℕ → Bool
is_blank c = c == 32 || (leb 9 c && leb c 13)

unfoldable pub skip_blanks : Bytes → Bytes
skip_blanks [] = []
skip_blanks (c ∷ cs) = if is_blank c then skip_blanks cs else c ∷ cs

positive : Bytes → Option ℤ
positive [] = none
positive (c ∷ cs) =
    if ltb (value_of 0 (c ∷ cs)) (2 ^ 31) then some (pos (value_of 0 (c ∷ cs))) else none

negative : Bytes → Option ℤ
negative [] = none
negative (c ∷ cs) =
    if value_of 0 (c ∷ cs) == 0
    then some (pos 0)
    else if leb (value_of 0 (c ∷ cs)) (2 ^ 31)
    then some (negsuc (value_of 0 (c ∷ cs) - 1))
    else none

signed : Bytes → Option ℤ
unfolding positive negative
signed [] = none
signed (c ∷ cs) =
    if c == b'-'
    then negative (leading_digits cs)
    else if c == b'+'
    then positive (leading_digits cs)
    else positive (leading_digits (c ∷ cs))

-- `std::stoi` in base ten: blanks, a sign, digits; what stands behind the digits is ignored.
unfoldable pub stoi : Bytes → Option ℤ
unfolding signed skip_blanks leading_digits value_of
stoi s = signed (skip_blanks s)

pub value_of-append :
    (acc : ℕ) (xs : Bytes) (c : ℕ) → value_of acc (xs ++ c ∷ []) ≡ value_of acc xs * 10 + (c - b'0')
unfolding value_of
value_of-append acc [] c = refl
value_of-append acc (x ∷ xs) c = value_of-append (acc * 10 + (x - b'0')) xs c

value_of-digits : (fuel n : ℕ) → n < fuel → value_of 0 (digits fuel n) ≡ n
unfolding digits
value_of-digits zero n h = absurd (omega arith)
value_of-digits (suc fuel) n h = elim (Bool-cases (ltb n 10)) [
  | inl small ↦ rw small (unfold value_of in omega arith)
  | inr large ↦ rw large (
      omega (
        arith,
        value_of-append 0 (digits fuel (n / 10)) (b'0' + n % 10),
        value_of-digits fuel (n / 10) (ground arith),
      ))
]

pub value_of-to_string : (n : ℕ) → value_of 0 (to_string n) ≡ n
unfolding to_string
value_of-to_string n = value_of-digits (suc n) n (omega arith)

-- The text of a number: digits, at least one.
abbrev pub IsDigits : Bytes → Type 0
IsDigits = All (λ c. is_digit c ≡ true)

IsDigits-append : (xs : Bytes) (c : ℕ) → IsDigits xs → is_digit c ≡ true → IsDigits (xs ++ c ∷ [])
IsDigits-append [] c h d = (d, tt)
IsDigits-append (x ∷ xs) c h d = (h.0, IsDigits-append xs c h.1 d)

digits-IsDigits : (fuel n : ℕ) → IsDigits (digits fuel n)
unfolding digits
digits-IsDigits zero n = tt
digits-IsDigits (suc fuel) n = elim (Bool-cases (ltb n 10)) [
  | inl small ↦ rw small (ground arith, tt)
  | inr large ↦ rw large (IsDigits-append _ _ (digits-IsDigits fuel (n / 10)) (ground arith))
]

pub to_string-IsDigits : (n : ℕ) → IsDigits (to_string n)
unfolding to_string
to_string-IsDigits n = digits-IsDigits (suc n) n

concat-cons : (xs : Bytes) (c : ℕ) → (d : ℕ) × (ds : Bytes) × (xs ++ c ∷ [] ≡ d ∷ ds)
concat-cons [] c = (c, [], refl)
concat-cons (x ∷ xs) c = (x, xs ++ c ∷ [], refl)

pub to_string-cons : (n : ℕ) → (c : ℕ) × (cs : Bytes) × (to_string n ≡ c ∷ cs)
unfolding to_string digits
to_string-cons n = elim (Bool-cases (ltb n 10)) [
  | inl small ↦ (b'0' + n, [], rw small)
  | inr large ↦
      let (c, cs, e) = concat-cons (digits n (n / 10)) (b'0' + n % 10) in (c, cs, rw large e)
]
