-- ===== src/Lexer/Number/Based.antt =====
-- Numbers with the letter of a base, digits and underscores: how they are written and what they mean.
use p4ls.Prelude.{
  ℕ, ◌+◌, ◌-◌, ◌*◌, ◌^◌, ◌≤◌, ◌<◌, ◌≡◌, refl, subst, Bool, true, false, Option, none, some, List,
  [], ◌∷◌, ◌++◌, Bytes, ltb, leb, ◌==◌, if◌then◌else◌, All, ◌⊎◌, map, arith,
}
use p4ls.Lexer.Number.{
  in_number, digit_or_underscore, all_in, some_in, base_of, split_base, in_base, digit_value,
  digits_value, stoi_base,
}
use p4ls.Lexer.Number.Characters.{IsNumber}

-- A digit with its value and whether it is a capital letter, or an underscore.
abbrev pub Item : Type 0
Item = Option (Bool × ℕ)

abbrev pub digit_char : Bool → ℕ → ℕ
digit_char upper d =
    if ltb d 10 then b'0' + d else if upper then b'A' + (d - 10) else b'a' + (d - 10)

abbrev pub item_char : Item → ℕ
item_char none = b'_'
item_char (some (upper, d)) = digit_char upper d

abbrev pub Fits : ℕ → Item → Type 0
Fits base none = Unit
Fits base (some (upper, d)) = d < base

-- The value of the digits up to the first underscore, behind `acc`.
abbrev pub number_of : ℕ → ℕ → List Item → ℕ
number_of base acc [] = acc
number_of base acc (none ∷ items) = acc
number_of base acc (some (upper, d) ∷ items) = number_of base (acc * base + d) items

-- The base that a letter behind `0` stands for; without a letter it is ten.
abbrev pub Stands : Option ℕ → ℕ → Type 0
Stands none base = base ≡ 10
Stands (some letter) base =
    (((letter ≡ b'b') ⊎ (letter ≡ b'B')) × (base ≡ 2))
    ⊎ (((letter ≡ b'o') ⊎ (letter ≡ b'O')) × (base ≡ 8))
    ⊎ (((letter ≡ b'd') ⊎ (letter ≡ b'D')) × (base ≡ 10))
    ⊎ (((letter ≡ b'x') ⊎ (letter ≡ b'X')) × (base ≡ 16))

abbrev pub prefix_text : Option ℕ → Bytes
prefix_text none = []
prefix_text (some letter) = b'0' ∷ letter ∷ []

pub Stands-le : (prefix : Option ℕ) (base : ℕ) → Stands prefix base → base ≤ 16
Stands-le none base s = omega (arith, s)
Stands-le (some letter) base s = ground (arith, s)

item-in_base : (base : ℕ) (i : Item) → base ≤ 16 → Fits base i → in_base base (item_char i) ≡ true
unfolding in_base digit_value
item-in_base base none h f = ground arith
item-in_base base (some (true, d)) h f = ground (arith, h, f)
item-in_base base (some (false, d)) h f = ground (arith, h, f)

item-digit :
    (base : ℕ) (i : Item) → base ≤ 16 → Fits base i → digit_or_underscore (item_char i) ≡ true
item-digit base none h f = ground arith
item-digit base (some (true, d)) h f = ground (arith, h, f)
item-digit base (some (false, d)) h f = ground (arith, h, f)

item-in_number : (base : ℕ) (i : Item) → base ≤ 16 → Fits base i → in_number (item_char i) ≡ true
item-in_number base none h f = ground arith
item-in_number base (some (true, d)) h f = ground (arith, h, f)
item-in_number base (some (false, d)) h f = ground (arith, h, f)

all_in-items :
    (p : ℕ → Bool) (base : ℕ) (items : List Item)
    → ((i : Item) → Fits base i → p (item_char i) ≡ true)
    → All (Fits base) items
    → all_in p (map item_char items) ≡ true
unfolding all_in
all_in-items p base [] h f = refl
all_in-items p base (i ∷ items) h f = rw (h i f.0) (all_in-items p base items h f.1)

pub items-IsNumber :
    (base : ℕ) (items : List Item)
    → base ≤ 16
    → All (Fits base) items
    → IsNumber (map item_char items)
items-IsNumber base [] h f = tt
items-IsNumber base (i ∷ items) h f = (item-in_number base i h f.0, items-IsNumber base items h f.1)

digit-value :
    (upper : Bool) (d : ℕ)
    → d < 16
    → (digit_value (digit_char upper d) ≡ d) × ((digit_char upper d == b'_') ≡ false)
unfolding digit_value
digit-value true d h = (ground (arith, h), ground (arith, h))
digit-value false d h = (ground (arith, h), ground (arith, h))

digits_value-items :
    (base acc : ℕ) (items : List Item)
    → base ≤ 16
    → All (Fits base) items
    → digits_value base acc (map item_char items) ≡ number_of base acc items
unfolding digits_value
digits_value-items base acc [] h f = refl
digits_value-items base acc (none ∷ items) h f = refl
digits_value-items base acc (some (upper, d) ∷ items) h f =
    let (value, plain) = digit-value upper d (omega (arith, h, f.0)) in
    rw plain (rw value (digits_value-items base (acc * base + d) items h f.1))

pub stoi_base-items :
    (base : ℕ) (upper : Bool) (d : ℕ) (items : List Item)
    → base ≤ 16
    → All (Fits base) (some (upper, d) ∷ items)
    → stoi_base base (map item_char (some (upper, d) ∷ items)) ≡ (
        if leb (2 ^ 31) (number_of base 0 (some (upper, d) ∷ items))
        then none
        else some (number_of base 0 (some (upper, d) ∷ items)))
unfolding stoi_base
stoi_base-items base upper d items h f =
    let (value, plain) = digit-value upper d (omega (arith, h, f.0)) in
    let whole = digits_value-items base 0 (some (upper, d) ∷ items) h f in
    ground (arith, plain, whole)

pub some_in-items :
    (base : ℕ) (i : Item) (items : List Item)
    → base ≤ 16
    → All (Fits base) (i ∷ items)
    → some_in (in_base base) (map item_char (i ∷ items)) ≡ true
unfolding some_in
some_in-items base i items h f =
    let first = item-in_base base i h f.0 in
    let others = all_in-items (in_base base) base items (λ j g. item-in_base base j h g) f.1 in
    ground (arith, first, others)

base_of-Stands : (letter base : ℕ) → Stands (some letter) base → base_of letter ≡ some base
unfolding base_of
base_of-Stands letter base s = ground (arith, s)

base_of-item : (i : Item) → Fits 10 i → base_of (item_char i) ≡ none
unfolding base_of
base_of-item none f = ground arith
base_of-item (some (upper, d)) f = ground (arith, f)

pub split_base-items :
    (prefix : Option ℕ) (base : ℕ) (i : Item) (items : List Item)
    → Stands prefix base
    → All (Fits base) (i ∷ items)
    → split_base (prefix_text prefix ++ map item_char (i ∷ items))
      ≡ some (base, map item_char (i ∷ items))
unfolding split_base some_in
split_base-items (some letter) base i items s f =
    let h = Stands-le (some letter) base s in
    let found = base_of-Stands letter base s in
    let first = item-digit base i h f.0 in
    let others = all_in-items digit_or_underscore base items (λ j g. item-digit base j h g) f.1 in
    ground (arith, found, first, others)
split_base-items none base i [] s f =
    let first = item-digit base i (omega (arith, s)) f.0 in
    let others =
      all_in-items digit_or_underscore base [] (λ j g. item-digit base j (omega (arith, s)) g)
        f.1 in
    ground (arith, first, others, s)
split_base-items none base i (k ∷ items) s f =
    let h : base ≤ 16 = omega (arith, s) in
    let first = item-digit base i h f.0 in
    let others =
      all_in-items digit_or_underscore base (k ∷ items) (λ j g. item-digit base j h g) f.1 in
    let plain = base_of-item k (subst (λ b. Fits b k) s f.1.0) in
    ground (arith, first, others, plain, s)

pub prefix-IsNumber :
    (prefix : Option ℕ) (base : ℕ) → Stands prefix base → IsNumber (prefix_text prefix)
prefix-IsNumber none base s = tt
prefix-IsNumber (some letter) base s = (refl, (ground (arith, s), tt))
