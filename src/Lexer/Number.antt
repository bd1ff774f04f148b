-- ===== src/Lexer/Number.antt =====
-- Numbers: `Lexer::read_number` of server/p4l/lexer.cpp.
pub mod Values
pub mod Characters
pub mod Matching
pub mod Reading
pub mod Based
pub mod Literals
use p4ls.Prelude.{
  ℕ, zero, suc, ◌+◌, ◌-◌, ◌*◌, ◌/◌, ◌%◌, ◌^◌, Bool, true, false, ◌&&◌, ◌||◌, Option, none, some,
  List, [], ◌∷◌, Bytes, length, ltb, leb, ◌==◌, if◌then◌else◌,
}
use p4ls.Prelude.Int.{ℤ, pos, sub_ℕ}
use p4ls.Prelude.Decimal.{is_digit, value_of}
use p4ls.Lexer.{TokenId, t_unknown, t_number, Lexer, Lexed, advance}
use Lexed.{returns, throws, undefined}

-- The characters on which the loop goes on.
abbrev pub in_number : ℕ → Bool
in_number c =
    is_digit c
    || c == b'_'
    || c == b'w'
    || c == b's'
    || (leb b'a' c && leb c b'f')
    || (leb b'A' c && leb c b'F')
    || c == b'o'
    || c == b'O'
    || c == b'x'
    || c == b'X'

-- The loop that collects the number: each round takes a character or is the last.
unfoldable pub number_loop : ℕ → Lexer → Bytes × Lexer
number_loop zero l = ([], l)
number_loop (suc fuel) l =
    let next = advance l in
    let (more, end) = number_loop fuel next in
    if in_number next.last then (l.last ∷ more, end) else (l.last ∷ [], next)

-- The groups of the expression: width and letter, base, digits.
pub record NumberMatch : Type 0 where
  pub prefix : Option (Bytes × ℕ)
  pub base : ℕ
  pub digits : Bytes

-- The digits before a letter `s` or `w`, the letter, and what stands behind it.
unfoldable pub split_width : Bytes → Option (Bytes × ℕ × Bytes)
split_width [] = none
split_width (c ∷ cs) =
    let more = split_width cs in
    let longer : Option (Bytes × ℕ × Bytes) = elim more [
      | none ↦ elim cs [
        | [] ↦ none
        | d ∷ ds ↦ if d == b's' || d == b'w' then some (c ∷ [], d, ds) else none
      ]
      | some (width, letter, rest) ↦ some (c ∷ width, letter, rest)
    ] in
    if is_digit c then longer else none

abbrev pub is_hex : ℕ → Bool
is_hex c = is_digit c || (leb b'A' c && leb c b'F') || (leb b'a' c && leb c b'f')

abbrev pub digit_or_underscore : ℕ → Bool
digit_or_underscore c = is_hex c || c == b'_'

unfoldable pub all_in : (ℕ → Bool) → Bytes → Bool
all_in p [] = true
all_in p (c ∷ cs) = p c && all_in p cs

-- A character class with `+`: one character or more, and each of the class.
unfoldable pub some_in : (ℕ → Bool) → Bytes → Bool
some_in p [] = false
some_in p (c ∷ cs) = p c && all_in p cs

-- The base that `0` and a letter stand for.
unfoldable pub base_of : ℕ → Option ℕ
base_of c =
    if c == b'b' || c == b'B'
    then some 2
    else if c == b'd' || c == b'D'
    then some 10
    else if c == b'o' || c == b'O'
    then some 8
    else if c == b'x' || c == b'X'
    then some 16
    else none

-- What stands behind the width: base and digits. Where nothing follows the letter of a base, or
-- something that is no digit, the letter is tried as a digit.
unfoldable pub split_base : Bytes → Option (ℕ × Bytes)
split_base s =
    let whole : Option (ℕ × Bytes) = if some_in digit_or_underscore s then some (10, s) else none in
    elim s [
      | [] ↦ whole
      | z ∷ s' ↦ elim s' [
        | [] ↦ whole
        | c ∷ cs ↦ elim (base_of c) [
          | none ↦ whole
          | some base ↦
              if z == b'0' && some_in digit_or_underscore cs then some (base, cs) else whole
        ]
      ]
    ]

-- `regex_match(numstr, sm, rx)`.
unfoldable pub match_number : Bytes → Option NumberMatch
match_number s = elim (split_width s) [
  | none ↦ elim (split_base s) [
    | none ↦ none
    | some (base, digits) ↦ some (record { prefix = none; base = base; digits = digits })
  ]
  | some (width, letter, rest) ↦ elim (split_base rest) [
    | none ↦ none
    | some (base, digits) ↦
        some (record { prefix = some (width, letter); base = base; digits = digits })
  ]
]

-- The digits of a base, each with its value.
unfoldable pub digit_value : ℕ → ℕ
digit_value c = if leb b'a' c then c - b'a' + 10 else if leb b'A' c then c - b'A' + 10 else c - b'0'

-- The expressions that the digits are held against.
unfoldable pub in_base : ℕ → ℕ → Bool
unfolding digit_value
in_base base c = c == b'_' || (is_hex c && ltb (digit_value c) base)

-- The value of the digits before the first underscore, behind those read so far.
unfoldable pub digits_value : ℕ → ℕ → Bytes → ℕ
digits_value base acc [] = acc
digits_value base acc (c ∷ cs) =
    let more = digits_value base (acc * base + digit_value c) cs in if c == b'_' then acc else more

-- `std::stoi(str, nullptr, base)` on digits of the base and underscores: `none` where it throws.
unfoldable pub stoi_base : ℕ → Bytes → Option ℕ
unfolding digits_value
stoi_base base [] = none
stoi_base base (c ∷ cs) =
    let value = digits_value base 0 (c ∷ cs) in
    if c == b'_' then none else if ltb value (2 ^ 31) then some value else none

-- `mask & v`, and with a sign `(v & (mask >> 1)) - (v & (1 << (width - 1)))`; without a width the
-- mask has all its bits set.
unfoldable pub masked : Option (ℕ × Bool) → ℕ → ℤ
masked none v = pos v
masked (some (width, is_signed)) v =
    let half = 2 ^ (width - 1) in
    let value = v % 2 ^ width in
    if is_signed then sub_ℕ (value % half) (value / half % 2 * half) else pos value

-- What follows the width.
unfoldable pub read_digits : Option (ℕ × Bool) → NumberMatch → Lexer → Lexed
unfolding all_in some_in in_base
read_digits mask m l =
    if some_in (in_base m.base) m.digits
    then elim (stoi_base m.base m.digits) [
      | none ↦ throws
      | some v ↦ returns t_number (record l { value = masked mask v })
    ]
    else returns t_unknown l

-- `1 << width` is no `int`, or its predecessor is none, from a width of 31 on.
unfoldable pub evaluate : NumberMatch → Lexer → Lexed
evaluate m l = elim m.prefix [
  | none ↦ read_digits none m l
  | some (digits, letter) ↦
      let width = value_of 0 digits in
      let is_signed = letter == b's' in
      let l' = record l { width = width } in
      if leb (2 ^ 31) width
      then throws
      else if leb 31 width
      then undefined
      else if is_signed && ltb width 2
      then returns t_unknown l'
      else read_digits (some (width, is_signed)) m l'
]

unfoldable pub read_number : Lexer → Lexed
read_number l =
    let (numstr, l') = number_loop (suc (length l.rest)) l in
    elim (match_number numstr) [ none ↦ returns t_unknown l' | some m ↦ evaluate m l' ]
