-- ===== src/Tests/Lexing.antt =====
-- The readers of the lexer on short inputs.
use p4ls.Prelude.{
  ℕ, ◌+◌, ◌≡◌, refl, false, none, some, [], ◌∷◌, ◌++◌, Bytes, codes, length, count, arith, lookup,
  equal, ◌==◌, if◌then◌else◌,
}
use p4ls.Prelude.Int.{pos}
use p4ls.Lexer.{
  Lexer, t_header, t_string_literal, keyword, read_identifier, read_string, read_comment,
}
use p4ls.Lexer.Words.{at_text, read_identifier-append, read_string-keeps_quote}
use p4ls.Lexer.Comments.{read_comment-Open, read_comment-closed}

abbrev pub at_input : ℕ → Bytes → Lexer
at_input last rest = record {
  rest = rest;
  failed = false;
  last = last;
  row = 1;
  col = 1;
  text = [];
  value = pos 0;
  width = 32;
}

header_keyword : keyword (codes "header") ≡ t_header
unfolding keyword lookup equal
header_keyword = refl

read_identifier-append_example : read_identifier (at_input b'h' (codes "eader ipv4")) ≡ (
  keyword (codes "header"),
  record {
    rest = codes "ipv4";
    failed = false;
    last = b' ';
    row = 1;
    col = 1 + length (codes "eader") + 1;
    text = codes "header";
    value = pos 0;
    width = 32;
  },
)
read_identifier-append_example =
    read_identifier-append (at_input b'h' (codes "eader ipv4")) (codes "eader") b' ' (codes "ipv4")
      refl refl (refl, (refl, (refl, (refl, (refl, tt))))) refl

read_string-keeps_quote_example :
    read_string (at_text (at_input 0 []) [] (codes "ab" ++ b'"' ∷ codes ";")) ≡ (
      t_string_literal,
      record (at_input 0 []) { rest = codes ";"; failed = false; last = b'"'; text = codes "ab" },
    )
read_string-keeps_quote_example =
    read_string-keeps_quote (at_input 0 []) (codes "ab") (codes ";")
      ((refl, refl, refl), ((refl, refl, refl), tt))

read_comment-Open_example : read_comment 100 (at_input b'*' (codes " open")) ≡ none
read_comment-Open_example = read_comment-Open 100 (at_input b'*' (codes " open")) refl (refl, refl)

read_comment-closed_example :
    (col : ℕ) × (read_comment 4 (at_input b'*' (codes "a\n*/;"))
      ≡ some (record (at_input b'*' []) {
        rest = [];
        last = b';';
        row = 1 + count b'\n' (codes "a\n") + (if b';' == b'\n' then 1 else 0);
        col = col;
      }))
read_comment-closed_example =
    read_comment-closed 4 (codes "a\n") [] b';' (at_input b'*' (codes "a\n*/;")) (omega arith)
      ((refl, refl, refl), ((refl, refl, refl), tt)) refl refl refl
