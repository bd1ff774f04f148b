-- ===== src/Prelude/Text.antt =====
-- Texts as lists of bytes: literals, equality, occurrences, the part before the first NUL.
use Prim.Native.Char.{code}
use Prim.Native.String.{String}
use Prim.Native.Nat.{ℕ, ◌+◌}
use mathlib.Core.Path.{◌≡◌, refl}
use mathlib.Core.Logic.{◌↔◌}
use mathlib.Core.Bool.{Bool, true, false, ◌&&◌, ◌||◌}
use mathlib.Core.List.{List, [], ◌∷◌, ◌++◌}
use native.Mathlib.Omega.{arith}
use p4ls.Prelude.Tests.{ltb, ◌==◌, if◌then◌else◌}

abbrev pub Bytes : Type 0
Bytes = List ℕ

-- The bytes of an ASCII literal.
abbrev pub codes : String → Bytes
codes String.[] = []
codes (String.◌∷◌ c s) = code c ∷ codes s

-- `==` of two strings.
unfoldable pub equal : Bytes → Bytes → Bool
equal [] [] = true
equal [] (d ∷ t) = false
equal (c ∷ s) [] = false
equal (c ∷ s) (d ∷ t) = c == d && equal s t

pub equal_iff : (s t : Bytes) → (equal s t ≡ true) ↔ (s ≡ t)
unfolding equal
equal_iff [] [] = ground arith
equal_iff [] (d ∷ t) = ground arith
equal_iff (c ∷ s) [] = ground arith
equal_iff (c ∷ s) (d ∷ t) = ground (equal_iff s t, arith)

pub equal_refl : (a : Bytes) → equal a a ≡ true
equal_refl a = (equal_iff a a).1 refl

-- `<` of two strings: by their first bytes that differ, or the shorter one first.
unfoldable pub text_lt : Bytes → Bytes → Bool
text_lt [] [] = false
text_lt [] (d ∷ t) = true
text_lt (c ∷ s) [] = false
text_lt (c ∷ s) (d ∷ t) = ltb c d || (c == d && text_lt s t)

pub text_lt_irrefl : (s : Bytes) → text_lt s s ≡ false
unfolding text_lt
text_lt_irrefl [] = refl
text_lt_irrefl (c ∷ s) = ground (arith, text_lt_irrefl s)

pub text_lt_trans : (r s t : Bytes) → text_lt r s ≡ true → text_lt s t ≡ true → text_lt r t ≡ true
unfolding text_lt
text_lt_trans [] [] t h k = ground arith
text_lt_trans [] (c ∷ s) [] h k = ground arith
text_lt_trans [] (c ∷ s) (d ∷ t) h k = refl
text_lt_trans (b ∷ r) [] t h k = ground arith
text_lt_trans (b ∷ r) (c ∷ s) [] h k = ground arith
text_lt_trans (b ∷ r) (c ∷ s) (d ∷ t) h k = ground (arith, text_lt_trans r s t)

pub text_lt_total : (s t : Bytes) → text_lt s t ≡ false → text_lt t s ≡ false → s ≡ t
unfolding text_lt
text_lt_total [] [] h k = refl
text_lt_total [] (d ∷ t) h k = ground arith
text_lt_total (c ∷ s) [] h k = ground arith
text_lt_total (c ∷ s) (d ∷ t) h k = ground (arith, text_lt_total s t)

-- How often a byte occurs.
abbrev pub count : ℕ → Bytes → ℕ
count b [] = 0
count b (c ∷ s) = count b s + (if c == b then 1 else 0)

pub count-append : (b : ℕ) (xs ys : Bytes) → count b (xs ++ ys) ≡ count b xs + count b ys
count-append b [] ys = omega arith
count-append b (x ∷ xs) ys = omega (arith, count-append b xs ys)

-- What is left of a text that passes through a `const char*`: the bytes before the first NUL.
unfoldable pub c_str : Bytes → Bytes
c_str [] = []
c_str (c ∷ cs) = if c == 0 then [] else c ∷ c_str cs

pub c_str_lem : (s : Bytes) → count 0 s ≡ 0 → c_str s ≡ s
unfolding c_str
c_str_lem [] h = refl
c_str_lem (c ∷ s) h = ground (arith, c_str_lem s)
