-- ===== src/Lexer/Number/Literals.antt =====
-- What numbers with a width are read as, in every base.
use p4ls.Prelude.{
  ℕ, ◌≡◌, refl, ap, ◌∙◌, Bool, true, false, Option, some, List, ◌∷◌, ◌++◌, Bytes, if◌then◌else◌,
  All, ◌==◌, inl, inr, length-append, map, arith,
}
use p4ls.Prelude.Decimal.{to_string, to_string-IsDigits}
use p4ls.Lexer.{Lexer}
use p4ls.Lexer.Number.{in_number, match_number, read_digits, read_number}
use p4ls.Lexer.Number.Characters.{IsNumber, digits-IsNumber}
use p4ls.Lexer.Number.Matching.{split_width-to_string}
use p4ls.Lexer.Number.Reading.{
  behind, literal, Reads, evaluate-Reads, of_match, read_number-of_match, IsNumber-append,
  letter-in_number,
}
use p4ls.Lexer.Number.Based.{
  Item, item_char, Fits, number_of, Stands, Stands-le, prefix_text, items-IsNumber, stoi_base-items,
  some_in-items, split_base-items, prefix-IsNumber,
}

-- A number with its width: `8w255`, `8s0d127`, `8w0x0f`, `16w0b1_1`.
abbrev pub written : ℕ → Bool → Option ℕ → List Item → Bytes
written width is_signed prefix items =
    to_string width
    ++ (if is_signed then b's' else b'w') ∷ (prefix_text prefix ++ map item_char items)

match_number-written :
    (width : ℕ) (is_signed : Bool) (prefix : Option ℕ) (base : ℕ) (i : Item) (items : List Item)
    → Stands prefix base
    → All (Fits base) (i ∷ items)
    → match_number (written width is_signed prefix (i ∷ items))
      ≡ some (record {
        prefix = some (to_string width, if is_signed then b's' else b'w');
        base = base;
        digits = map item_char (i ∷ items);
      })
unfolding match_number
match_number-written width true prefix base i items s f =
    let rest = prefix_text prefix ++ map item_char (i ∷ items) in
    ground (
      arith,
      split_width-to_string width rest b's' (inl refl),
      split_base-items prefix base i items s f,
    )
match_number-written width false prefix base i items s f =
    let rest = prefix_text prefix ++ map item_char (i ∷ items) in
    ground (
      arith,
      split_width-to_string width rest b'w' (inr refl),
      split_base-items prefix base i items s f,
    )

items-Reads :
    (prefix : Option ℕ) (base : ℕ) (upper : Bool) (d : ℕ) (items : List Item)
    → Stands prefix base
    → All (Fits base) (some (upper, d) ∷ items)
    → Reads base
        (map item_char (some (upper, d) ∷ items))
        (number_of base 0 (some (upper, d) ∷ items))
unfolding read_digits
items-Reads prefix base upper d items s f mask width l =
    let h = Stands-le prefix base s in
    let all = some_in-items base (some (upper, d)) items h f in
    let value = stoi_base-items base upper d items h f in ground (arith, all, value)

signed_letter : (b : Bool) → ((if b then b's' else b'w') == b's') ≡ b
signed_letter true = refl
signed_letter false = refl

-- A number is written with its width, signed or not, with a letter behind `0` for its base or in
-- decimal, with digits of the base of which the first is no underscore, and is followed by no
-- character of a number. Its number is that of the digits before the first underscore: what stands
-- behind one is dropped. It is read below a width of 31 as the lowest bits of that number, or as
-- their two's complement. From a width of 31 on the shift has no defined result, a width or a
-- number of 2 ^ 31 or more throws, and a signed width below 2 is no number; the width is kept in
-- both of the cases that return.
pub read_number-literal :
    (l : Lexer) (width : ℕ) (is_signed : Bool) (prefix : Option ℕ) (base : ℕ) (upper : Bool) (d : ℕ)
    (items : List Item) (c : ℕ) (more : Bytes)
    → Stands prefix base
    → All (Fits base) (some (upper, d) ∷ items)
    → l.failed ≡ false
    → l.last ∷ l.rest ≡ written width is_signed prefix (some (upper, d) ∷ items) ++ c ∷ more
    → in_number c ≡ false
    → read_number l
      ≡ literal width is_signed
          (number_of base 0 (some (upper, d) ∷ items))
          (behind l (written width is_signed prefix (some (upper, d) ∷ items)) c more)
read_number-literal l width is_signed prefix base upper d items c more st f g r s =
    let all = some (upper, d) ∷ items in
    let text = written width is_signed prefix all in
    let n = number_of base 0 all in
    let after = behind l text c more in
    let letter = if is_signed then b's' else b'w' in
    let tail = letter ∷ (prefix_text prefix ++ map item_char all) in
    let number : IsNumber text =
      IsNumber-append (to_string width) tail
        (digits-IsNumber (to_string width) (to_string-IsDigits width))
        (
          letter-in_number is_signed,
          IsNumber-append (prefix_text prefix) (map item_char all) (prefix-IsNumber prefix base st)
              (items-IsNumber base all (Stands-le prefix base st) f),
        ) in
    read_number-of_match l text c more (omega (arith, length-append (to_string width) tail)) g r
      number s
    ∙ ap (λ m. of_match m after)
        (match_number-written width is_signed prefix base (some (upper, d)) items st f)
    ∙ evaluate-Reads width letter base n (map item_char all) after
        (items-Reads prefix base upper d items st f)
    ∙ ap (λ b. literal width b n after) (signed_letter is_signed)
