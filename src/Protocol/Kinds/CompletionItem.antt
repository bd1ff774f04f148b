-- ===== src/Protocol/Kinds/CompletionItem.antt =====
-- server/lsp/protocol.h: the kinds of completion items and their numbers in the protocol.
use p4ls.Prelude.{ℕ, ◌<◌, ◌≡◌, refl, ◌⊎◌, ◌==◌, if◌then◌else◌, arith}
use p4ls.Prelude.Int.{ℤ, pos, negsuc}

pub data CompletionItemKind : Type 0 where
  text method function constructor field variable class interface module_kind property :
      CompletionItemKind
  unit_kind value enum keyword snippet color file reference folder enum_member constant :
      CompletionItemKind
  struct event operator type_parameter : CompletionItemKind

-- `static_cast<int>` of a kind.
unfoldable pub to_int : CompletionItemKind → ℕ
to_int text = 1
to_int method = 2
to_int function = 3
to_int constructor = 4
to_int field = 5
to_int variable = 6
to_int class = 7
to_int interface = 8
to_int module_kind = 9
to_int property = 10
to_int unit_kind = 11
to_int value = 12
to_int enum = 13
to_int keyword = 14
to_int snippet = 15
to_int color = 16
to_int file = 17
to_int reference = 18
to_int folder = 19
to_int enum_member = 20
to_int constant = 21
to_int struct = 22
to_int event = 23
to_int operator = 24
to_int type_parameter = 25

-- The `switch`, on a number that is not negative, in two parts.
high_kind : ℕ → CompletionItemKind
high_kind v =
    if v == 13
    then enum
    else if v == 14
    then keyword
    else if v == 15
    then snippet
    else if v == 16
    then color
    else if v == 17
    then file
    else if v == 18
    then reference
    else if v == 19
    then folder
    else if v == 20
    then enum_member
    else if v == 21
    then constant
    else if v == 22
    then struct
    else if v == 23
    then event
    else if v == 24
    then operator
    else if v == 25
    then type_parameter
    else text

low_kind : ℕ → CompletionItemKind
low_kind v =
    if v == 1
    then text
    else if v == 2
    then method
    else if v == 3
    then function
    else if v == 4
    then constructor
    else if v == 5
    then field
    else if v == 6
    then variable
    else if v == 7
    then class
    else if v == 8
    then interface
    else if v == 9
    then module_kind
    else if v == 10
    then property
    else if v == 11
    then unit_kind
    else if v == 12
    then value
    else high_kind v

-- Any other number, a negative one included, falls behind the `switch`.
unfoldable pub convert_int_to_completion_item_kind : ℤ → CompletionItemKind
unfolding low_kind high_kind
convert_int_to_completion_item_kind (pos v) = low_kind v
convert_int_to_completion_item_kind (negsuc v) = text

-- Every kind is read back from its number.
pub convert_int_to_completion_item_kind-to_int :
    (k : CompletionItemKind) → convert_int_to_completion_item_kind (pos (to_int k)) ≡ k
unfolding convert_int_to_completion_item_kind to_int
convert_int_to_completion_item_kind-to_int text = refl
convert_int_to_completion_item_kind-to_int method = refl
convert_int_to_completion_item_kind-to_int function = refl
convert_int_to_completion_item_kind-to_int constructor = refl
convert_int_to_completion_item_kind-to_int field = refl
convert_int_to_completion_item_kind-to_int variable = refl
convert_int_to_completion_item_kind-to_int class = refl
convert_int_to_completion_item_kind-to_int interface = refl
convert_int_to_completion_item_kind-to_int module_kind = refl
convert_int_to_completion_item_kind-to_int property = refl
convert_int_to_completion_item_kind-to_int unit_kind = refl
convert_int_to_completion_item_kind-to_int value = refl
convert_int_to_completion_item_kind-to_int enum = refl
convert_int_to_completion_item_kind-to_int keyword = refl
convert_int_to_completion_item_kind-to_int snippet = refl
convert_int_to_completion_item_kind-to_int color = refl
convert_int_to_completion_item_kind-to_int file = refl
convert_int_to_completion_item_kind-to_int reference = refl
convert_int_to_completion_item_kind-to_int folder = refl
convert_int_to_completion_item_kind-to_int enum_member = refl
convert_int_to_completion_item_kind-to_int constant = refl
convert_int_to_completion_item_kind-to_int struct = refl
convert_int_to_completion_item_kind-to_int event = refl
convert_int_to_completion_item_kind-to_int operator = refl
convert_int_to_completion_item_kind-to_int type_parameter = refl

to_int_bounds : (k : CompletionItemKind) → (0 < to_int k) × (to_int k < 26)
unfolding to_int
to_int_bounds text = omega arith
to_int_bounds _ = omega arith

-- A number that is no kind's number is read as `text`.
pub convert_int_to_completion_item_kind_unknown :
    (v : ℕ) → (v ≡ 0) ⊎ (25 < v) → convert_int_to_completion_item_kind (pos v) ≡ text
unfolding convert_int_to_completion_item_kind
convert_int_to_completion_item_kind_unknown v h = ground arith
