-- ===== src/Lexer.antt =====
-- server/p4l/lexer.cpp and the class of lexer.h: characters, words, texts and comments of P4.
pub mod Words
pub mod Comments
pub mod Number
pub mod Scan
use p4ls.Prelude.{
  ℕ, zero, suc, ◌+◌, Bool, true, false, ◌&&◌, ◌||◌, not, Option, none, some, List, [], ◌∷◌, ◌++◌,
  Bytes, codes, length, leb, ◌==◌, if◌then◌else◌, lookup,
}
use p4ls.Prelude.Int.{ℤ, pos}

-- The tokens: those that the readers return, and the three that the enumeration declares for others.
pub data TokenId : Type 0 where
  t_abstract t_action t_actions t_apply t_bool t_bit : TokenId
  t_const t_control t_default t_else t_entries t_enum : TokenId
  t_error t_exit t_extern t_false t_header t_header_union : TokenId
  t_if t_in t_inout t_int t_key t_match_kind : TokenId
  t_type t_out t_parser t_package t_return t_select : TokenId
  t_state t_struct t_switch t_table t_this t_transition : TokenId
  t_true t_tuple t_typedef t_varbit t_value_set t_void : TokenId
  t_dontcare t_identifier t_string_literal t_unknown t_end t_number : TokenId
  t_ne t_not t_mod t_mask t_and t_bit_and : TokenId
  t_l_paren t_r_paren t_mul t_pp t_plus t_comma : TokenId
  t_minus t_range t_dot t_div t_colon t_semicolon : TokenId
  t_shl t_le t_l_angle t_eq t_assign t_ge : TokenId
  t_r_angle t_question t_end_pragma t_at t_l_bracket t_r_bracket : TokenId
  t_bit_xor t_l_brace t_plus_sat t_minus_sat t_or t_bit_or : TokenId
  t_r_brace t_complement t_pragma t_type_identifier t_start : TokenId

-- The value of `EOF` in a `char`, which the byte 255 has too.
abbrev pub eof : ℕ
eof = 255

-- `failed`: `get` has found the end, or nothing to take.
pub record Lexer : Type 0 where
  pub rest : Bytes
  pub failed : Bool
  pub last : ℕ
  pub row : ℕ
  pub col : ℕ
  pub text : Bytes
  pub value : ℤ
  pub width : ℕ

-- `last = is.get()`
unfoldable pub get : Lexer → Lexer
get l = if l.failed then record l { last = eof } else elim l.rest [
  | [] ↦ record l { last = eof; failed = true }
  | c ∷ cs ↦ record l { last = c; rest = cs }
]

-- The members of a new lexer.
unfoldable pub new_lexer : Bytes → Lexer
new_lexer is = record {
  rest = is;
  failed = false;
  last = b' ';
  row = 1;
  col = 0;
  text = [];
  value = pos 0;
  width = 32;
}

-- What a call of the lexer does: it returns a token, an exception of `std::stoi` leaves it, its
-- behaviour is undefined, or it never returns. `out_of_fuel`: the recursion has not ended yet.
pub data Lexed : Type 0 where
  returns : TokenId → Lexer → Lexed
  throws undefined endless out_of_fuel : Lexed

unfoldable pub advance : Lexer → Lexer
advance l =
    let next = get l in
    if l.last == eof
    then l
    else if next.last == b'\n'
    then record next { row = l.row + 1; col = 0 }
    else record next { col = l.col + 1 }

-- `isalnum(c) || c == '_'` in the C locale.
abbrev pub is_word : ℕ → Bool
is_word c =
    (leb b'0' c && leb c b'9')
    || (leb b'A' c && leb c b'Z')
    || (leb b'a' c && leb c b'z')
    || c == b'_'

-- The characters that the loop of `read_identifier` takes, and the rest.
unfoldable pub take_word : Bytes → Bytes × Bytes
take_word [] = ([], [])
take_word (c ∷ cs) =
    let (word, rest) = take_word cs in if is_word c then (c ∷ word, rest) else ([], c ∷ cs)

-- The chain of comparisons.
abbrev pub keywords : List (Bytes × TokenId)
keywords =
    (codes "abstract", t_abstract)
    ∷ (codes "action", t_action)
    ∷ (codes "actions", t_actions)
    ∷ (codes "apply", t_apply)
    ∷ (codes "bool", t_bool)
    ∷ (codes "bit", t_bit)
    ∷ (codes "const", t_const)
    ∷ (codes "control", t_control)
    ∷ (codes "default", t_default)
    ∷ (codes "else", t_else)
    ∷ (codes "entries", t_entries)
    ∷ (codes "enum", t_enum)
    ∷ (codes "error", t_error)
    ∷ (codes "exit", t_exit)
    ∷ (codes "extern", t_extern)
    ∷ (codes "false", t_false)
    ∷ (codes "header", t_header)
    ∷ (codes "header_union", t_header_union)
    ∷ (codes "if", t_if)
    ∷ (codes "in", t_in)
    ∷ (codes "inout", t_inout)
    ∷ (codes "int", t_int)
    ∷ (codes "key", t_key)
    ∷ (codes "match_kind", t_match_kind)
    ∷ (codes "type", t_type)
    ∷ (codes "out", t_out)
    ∷ (codes "parser", t_parser)
    ∷ (codes "package", t_package)
    ∷ (codes "return", t_return)
    ∷ (codes "select", t_select)
    ∷ (codes "state", t_state)
    ∷ (codes "struct", t_struct)
    ∷ (codes "switch", t_switch)
    ∷ (codes "table", t_table)
    ∷ (codes "this", t_this)
    ∷ (codes "transition", t_transition)
    ∷ (codes "true", t_true)
    ∷ (codes "tuple", t_tuple)
    ∷ (codes "typedef", t_typedef)
    ∷ (codes "varbit", t_varbit)
    ∷ (codes "value_set", t_value_set)
    ∷ (codes "void", t_void)
    ∷ (codes "_", t_dontcare)
    ∷ []

unfoldable pub keyword : Bytes → TokenId
keyword text = elim (lookup text keywords) [ none ↦ t_identifier | some token ↦ token ]

-- `++col` for each character and one more; a line feed behind the word is not counted as a row.
unfoldable pub read_identifier : Lexer → TokenId × Lexer
read_identifier l =
    let (word, rest) = if l.failed then ([], l.rest) else take_word l.rest in
    let after = get (record l { rest = rest }) in
    let text = l.last ∷ word in
    (keyword text, record after { text = text; col = l.col + length word + 1 })

-- The loop of `read_string` behind `text.clear()`, by the characters that are left.
unfoldable pub string_loop : ℕ → Lexer → TokenId × Lexer
string_loop zero l = (t_unknown, l)
string_loop (suc fuel) l =
    let escaped = get l in
    let behind =
      string_loop fuel (get (record escaped { text = l.text ++ b'\\' ∷ escaped.last ∷ [] })) in
    let plain = string_loop fuel (get (record l { text = l.text ++ l.last ∷ [] })) in
    if l.last == b'"'
    then (t_string_literal, l)
    else if l.last == eof
    then (t_unknown, l)
    else if l.last == b'\\'
    then if escaped.last == eof then (t_unknown, escaped) else behind
    else plain

-- Each round takes a character or is the last.
unfoldable pub read_string : Lexer → TokenId × Lexer
read_string l = string_loop (suc (suc (length l.rest))) (record l { text = [] })

-- `is.get(sb)`: up to the next line feed, which stays; it fails where it takes nothing.
unfoldable pub split_at_newline : Bytes → Bytes × Bytes
split_at_newline [] = ([], [])
split_at_newline (c ∷ cs) =
    let (line, rest) = split_at_newline cs in if c == b'\n' then ([], c ∷ cs) else (c ∷ line, rest)

unfoldable pub skip_line : Lexer → Lexer
unfolding split_at_newline
skip_line l =
    let skipped : Lexer = elim (split_at_newline l.rest).0 [
      | [] ↦ record l { failed = true }
      | _ ↦ record l { rest = (split_at_newline l.rest).1 }
    ] in
    if l.failed then l else skipped

unfoldable pub read_location : Lexer → Lexer
read_location l = advance (skip_line l)

-- The two loops of a block comment, on fuel: in the loop over its asterisks, or not. `none`: the
-- loop has not ended yet.
unfoldable pub comment_loop : ℕ → Bool → Lexer → Option Lexer
comment_loop zero stars l = none
comment_loop (suc fuel) stars l =
    let next = advance l in
    let on = comment_loop fuel false next in
    let more_stars = comment_loop fuel true next in
    if next.last == b'*'
    then more_stars
    else if stars && next.last == b'/'
    then some (record next { last = 0 })
    else if next.last == 0
    then some next
    else on

unfoldable pub read_comment : ℕ → Lexer → Option Lexer
read_comment fuel l =
    if l.last == b'/'
    then some (advance (skip_line l))
    else elim (comment_loop fuel false l) [ none ↦ none | some l' ↦ some (advance l') ]
