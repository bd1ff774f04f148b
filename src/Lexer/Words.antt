-- ===== src/Lexer/Words.antt =====
-- Words and texts: how far the readers go, and what they leave.
use p4ls.Prelude.{
  ℕ, zero, suc, ◌+◌, ◌≤◌, ◌≡◌, refl, ◌∙◌, true, false, [], ◌∷◌, ◌++◌, Bytes, length, ◌==◌, All,
  arith, append_assoc, append-nil, length-append, ap,
}
use p4ls.Lexer.{
  t_string_literal, Lexer, eof, get, is_word, take_word, keyword, read_identifier, string_loop,
  read_string,
}

abbrev pub IsWord : Bytes → Type 0
IsWord = All (λ c. is_word c ≡ true)

take_word-append :
    (word : Bytes) (c : ℕ) (more : Bytes)
    → IsWord word
    → is_word c ≡ false
    → take_word (word ++ c ∷ more) ≡ (word, c ∷ more)
unfolding take_word
take_word-append [] c more w n = ground arith
take_word-append (d ∷ word) c more w n = ground (arith, take_word-append word c more w.1 n)

-- A word is read to its end: with letters, digits and underscores behind the current character, and
-- then another character, the text is all of them, the token is that text's keyword or identifier,
-- and the other character is the current one. The row stays, also where that character is a line
-- feed.
pub read_identifier-append :
    (l : Lexer) (word : Bytes) (c : ℕ) (more : Bytes)
    → l.failed ≡ false
    → l.rest ≡ word ++ c ∷ more
    → IsWord word
    → is_word c ≡ false
    → read_identifier l ≡ (
      keyword (l.last ∷ word),
      record l { rest = more; last = c; text = l.last ∷ word; col = l.col + length word + 1 },
    )
unfolding read_identifier get
read_identifier-append l word c more f r w n = ground (arith, take_word-append word c more w n)

-- Characters of a text that stand for themselves.
abbrev pub IsPlain : Bytes → Type 0
IsPlain = All (λ c. ((c == b'"') ≡ false) × ((c == b'\\') ≡ false) × ((c == eof) ≡ false))

-- Reading stands at the first of these characters, behind the text `read`.
abbrev pub at_text : Lexer → Bytes → Bytes → Lexer
at_text l read [] = l
at_text l read (c ∷ cs) = record l { rest = cs; failed = false; last = c; text = read }

string_loop-step :
    (fuel d c : ℕ) (cs read : Bytes) (l : Lexer)
    → (d == b'"') ≡ false
    → (d == b'\\') ≡ false
    → (d == eof) ≡ false
    → string_loop (suc fuel) (at_text l read (d ∷ c ∷ cs))
      ≡ string_loop fuel (at_text l (read ++ d ∷ []) (c ∷ cs))
unfolding string_loop get
string_loop-step fuel d c cs read l q b e = ground arith

string_loop-at_text :
    (fuel : ℕ) (body more read : Bytes) (l : Lexer)
    → length body ≤ fuel
    → IsPlain body
    → string_loop (suc fuel) (at_text l read (body ++ b'"' ∷ more)) ≡ (
      t_string_literal,
      record l { rest = more; failed = false; last = b'"'; text = read ++ body },
    )
string_loop-at_text fuel [] more read l n p = rw (append-nil read) (unfold string_loop in refl)
string_loop-at_text zero (d ∷ body) more read l n p = absurd (omega arith)
string_loop-at_text (suc fuel) (d ∷ []) more read l n p =
    string_loop-step (suc fuel) d b'"' more read l p.0.0 p.0.1 p.0.2
    ∙ string_loop-at_text fuel [] more (read ++ d ∷ []) l (omega arith) tt
    ∙ ap (λ t. (t_string_literal, record l { rest = more; failed = false; last = b'"'; text = t }))
        (append-nil (read ++ d ∷ []))
string_loop-at_text (suc fuel) (d ∷ d' ∷ body) more read l n p =
    string_loop-step (suc fuel) d d' (body ++ b'"' ∷ more) read l p.0.0 p.0.1 p.0.2
    ∙ string_loop-at_text fuel (d' ∷ body) more (read ++ d ∷ []) l (omega (arith, n)) p.1
    ∙ ap (λ t. (t_string_literal, record l { rest = more; failed = false; last = b'"'; text = t }))
        (append_assoc read (d ∷ []) (d' ∷ body))

-- A text with neither a quote, a backslash nor the byte 255 inside is read whole; the quote that
-- closes it is not taken: it is the current character, so that the next token begins with it as
-- though it opened a text.
pub read_string-keeps_quote :
    (l : Lexer) (body more : Bytes)
    → IsPlain body
    → read_string (at_text l l.text (body ++ b'"' ∷ more))
      ≡ (t_string_literal, record l { rest = more; failed = false; last = b'"'; text = body })
unfolding read_string
read_string-keeps_quote l [] more p =
    string_loop-at_text (suc (length more)) [] more [] l (omega arith) tt
read_string-keeps_quote l (d ∷ body) more p =
    string_loop-at_text (suc (length (body ++ b'"' ∷ more))) (d ∷ body) more [] l
      (omega (arith, length-append body (b'"' ∷ more))) p
