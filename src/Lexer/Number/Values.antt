-- ===== src/Lexer/Number/Values.antt =====
-- The value of a number with its width.
use p4ls.Prelude.{
  ℕ, zero, suc, ◌-◌, ◌*◌, ◌/◌, ◌%◌, ◌^◌, ◌≤◌, ◌<◌, ◌≡◌, refl, ◌∙◌, ap, true, false, some, ltb,
  if◌then◌else◌, Bool-cases, inl, inr, arith,
}
use native.Mathlib.Nat.{
  mod-eq_of_lt, div-eq_of_lt, mod-eq-sub-mod, div-eq_of_lt-le, mod-lt, one-le-pow,
}
use p4ls.Prelude.Int.{ℤ, pos, negsuc, sub_ℕ}
use p4ls.Lexer.Number.{masked}

-- The number below 2 ^ width, read as a two's complement.
abbrev pub twos : ℕ → ℕ → ℤ
twos width v =
    let low = v % 2 ^ width in
    if ltb low (2 ^ (width - 1)) then pos low else negsuc (2 ^ width - low - 1)

twos-low :
    (half full low : ℕ)
    → full ≡ 2 * half
    → low < full
    → sub_ℕ (low % half) (low / half % 2 * half)
      ≡ (if ltb low half then pos low else negsuc (full - low - 1))
twos-low half full low p h = elim (Bool-cases (ltb low half)) [
  | inl small ↦
      let r : low % half ≡ low = mod-eq_of_lt (ground arith) in
      let q : low / half ≡ 0 = div-eq_of_lt (ground arith) in rw r (rw q (ground (arith, h, p)))
  | inr large ↦
      let s : (low - half) % half ≡ low - half = mod-eq_of_lt (ground arith) in
      let r : low % half ≡ low - half = (mod-eq-sub-mod (ground arith) ∙ s) in
      let q : low / half ≡ 1 = div-eq_of_lt-le half (ground arith) (ground arith) in
      rw r (rw q (ground (arith, h, p)))
]

-- The two masks of a signed number give the two's complement of its lowest bits.
pub masked-twos : (width v : ℕ) → 1 ≤ width → masked (some (width, true)) v ≡ twos width v
unfolding masked
masked-twos zero v h = absurd (omega (arith, h))
masked-twos (suc k) v h =
    let less : suc k - 1 ≡ k = omega arith in
    twos-low (2 ^ (suc k - 1)) (2 ^ suc k) (v % 2 ^ suc k) (omega (arith, ap (λ n. 2 ^ n) less))
      (mod-lt v (one-le-pow (suc k) 2 (omega arith)))

pub masked-plain : (width v : ℕ) → masked (some (width, false)) v ≡ pos (v % 2 ^ width)
unfolding masked
masked-plain width v = refl
