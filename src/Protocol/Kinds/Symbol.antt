-- ===== src/Protocol/Kinds/Symbol.antt =====
-- server/lsp/protocol.h: the kinds of symbols and their numbers in the protocol.
use p4ls.Prelude.{ℕ, ◌<◌, ◌≡◌, refl, ◌⊎◌, ◌==◌, if◌then◌else◌, arith}
use p4ls.Prelude.Int.{ℤ, pos, negsuc}

pub data SymbolKind : Type 0 where
  file module_kind namespace package_kind class method property field constructor enum : SymbolKind
  interface function variable constant string number boolean array object key null : SymbolKind
  enum_member struct event operator type_parameter : SymbolKind

-- `static_cast<int>` of a kind.
unfoldable pub to_int : SymbolKind → ℕ
to_int file = 1
to_int module_kind = 2
to_int namespace = 3
to_int package_kind = 4
to_int class = 5
to_int method = 6
to_int property = 7
to_int field = 8
to_int constructor = 9
to_int enum = 10
to_int interface = 11
to_int function = 12
to_int variable = 13
to_int constant = 14
to_int string = 15
to_int number = 16
to_int boolean = 17
to_int array = 18
to_int object = 19
to_int key = 20
to_int null = 21
to_int enum_member = 22
to_int struct = 23
to_int event = 24
to_int operator = 25
to_int type_parameter = 26

-- The `switch`, on a number that is not negative, in two parts.
high_kind : ℕ → SymbolKind
high_kind v =
    if v == 14
    then constant
    else if v == 15
    then string
    else if v == 16
    then number
    else if v == 17
    then boolean
    else if v == 18
    then array
    else if v == 19
    then object
    else if v == 20
    then key
    else if v == 21
    then null
    else if v == 22
    then enum_member
    else if v == 23
    then struct
    else if v == 24
    then event
    else if v == 25
    then operator
    else if v == 26
    then type_parameter
    else file

low_kind : ℕ → SymbolKind
low_kind v =
    if v == 1
    then file
    else if v == 2
    then module_kind
    else if v == 3
    then namespace
    else if v == 4
    then package_kind
    else if v == 5
    then class
    else if v == 6
    then method
    else if v == 7
    then property
    else if v == 8
    then field
    else if v == 9
    then constructor
    else if v == 10
    then enum
    else if v == 11
    then interface
    else if v == 12
    then function
    else if v == 13
    then variable
    else high_kind v

-- Any other number, a negative one included, falls behind the `switch`.
unfoldable pub convert_int_to_symbol_kind : ℤ → SymbolKind
unfolding low_kind high_kind
convert_int_to_symbol_kind (pos v) = low_kind v
convert_int_to_symbol_kind (negsuc v) = file

-- Every kind is read back from its number.
convert_int_to_symbol_kind-to_int :
    (k : SymbolKind) → convert_int_to_symbol_kind (pos (to_int k)) ≡ k
unfolding convert_int_to_symbol_kind to_int
convert_int_to_symbol_kind-to_int file = refl
convert_int_to_symbol_kind-to_int module_kind = refl
convert_int_to_symbol_kind-to_int namespace = refl
convert_int_to_symbol_kind-to_int package_kind = refl
convert_int_to_symbol_kind-to_int class = refl
convert_int_to_symbol_kind-to_int method = refl
convert_int_to_symbol_kind-to_int property = refl
convert_int_to_symbol_kind-to_int field = refl
convert_int_to_symbol_kind-to_int constructor = refl
convert_int_to_symbol_kind-to_int enum = refl
convert_int_to_symbol_kind-to_int interface = refl
convert_int_to_symbol_kind-to_int function = refl
convert_int_to_symbol_kind-to_int variable = refl
convert_int_to_symbol_kind-to_int constant = refl
convert_int_to_symbol_kind-to_int string = refl
convert_int_to_symbol_kind-to_int number = refl
convert_int_to_symbol_kind-to_int boolean = refl
convert_int_to_symbol_kind-to_int array = refl
convert_int_to_symbol_kind-to_int object = refl
convert_int_to_symbol_kind-to_int key = refl
convert_int_to_symbol_kind-to_int null = refl
convert_int_to_symbol_kind-to_int enum_member = refl
convert_int_to_symbol_kind-to_int struct = refl
convert_int_to_symbol_kind-to_int event = refl
convert_int_to_symbol_kind-to_int operator = refl
convert_int_to_symbol_kind-to_int type_parameter = refl

to_int_bounds : (k : SymbolKind) → (0 < to_int k) × (to_int k < 27)
unfolding to_int
to_int_bounds file = omega arith
to_int_bounds _ = omega arith

-- A number that is no kind's number is read as `file`.
pub convert_int_to_symbol_kind_unknown :
    (v : ℕ) → (v ≡ 0) ⊎ (26 < v) → convert_int_to_symbol_kind (pos v) ≡ file
unfolding convert_int_to_symbol_kind
convert_int_to_symbol_kind_unknown v h = ground arith
