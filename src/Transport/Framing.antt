-- ===== src/Transport/Framing.antt =====
-- What `read_message` makes of what `send` writes, and the rounds that its loop needs.
use p4ls.Prelude.{
  ℕ, zero, suc, ◌^◌, ◌≤◌, ◌<◌, ◌≡◌, ◌≢◌, refl, ◌∙◌, ap, Bool, true, false, not, ◌&&◌, none, some,
  [], ◌∷◌, ◌++◌, Bytes, codes, ◌==◌, length, inl, inr, Bool-cases, Option-cases, List-cases, arith,
  All, append_assoc, take-length-append, drop-length-append, length-append,
}
use p4ls.Prelude.Decimal.{
  stoull, to_string, value_of-to_string, IsDigits, to_string-IsDigits, to_string-cons,
}
use p4ls.Dispatcher.{frame}
use p4ls.Transport.{
  InputStream, split_line, getline, strip_return, after_prefix, all_digits, match_content_length,
  Header, parsed, undefined_back, thrown, out_of_fuel, read_header, message, undefined_behaviour,
  exhausted, read_content, read_payload, after_header, read_message,
}

-- Bytes of a header line.
abbrev Plain : Bytes → Type 0
Plain = All (λ c. (c == 10) ≡ false)

split_line-append :
    (line rest : Bytes) → Plain line → split_line (line ++ 10 ∷ rest) ≡ (line, rest, true)
unfolding split_line
split_line-append [] rest h = refl
split_line-append (c ∷ line) rest h = ground (arith, split_line-append line rest h.1)

strip_return-append : (line : Bytes) → strip_return (line ++ 13 ∷ []) ≡ some line
unfolding strip_return
strip_return-append [] = refl
strip_return-append (c ∷ []) = refl
strip_return-append (c ∷ d ∷ line) = rw (strip_return-append (d ∷ line)) refl

IsDigits-all_digits : (s : Bytes) → IsDigits s → all_digits s ≡ true
unfolding all_digits
IsDigits-all_digits [] h = refl
IsDigits-all_digits (c ∷ s) h = ground (arith, IsDigits-all_digits s h.1)

Plain-append : (xs ys : Bytes) → Plain xs → Plain ys → Plain (xs ++ ys)
Plain-append [] ys h k = k
Plain-append (x ∷ xs) ys h k = (h.0, Plain-append xs ys h.1 k)

IsDigits-Plain : (s : Bytes) → IsDigits s → Plain s
IsDigits-Plain [] h = tt
IsDigits-Plain (c ∷ s) h = (ground arith, IsDigits-Plain s h.1)

abbrev header_line : ℕ → Bytes
header_line n = codes "Content-Length: " ++ to_string n

match_content_length-header_line :
    (n : ℕ) → match_content_length (header_line n) ≡ some (to_string n)
unfolding match_content_length after_prefix
match_content_length-header_line n =
    let (c, cs, e) = to_string-cons n in
    ground (arith, IsDigits-all_digits (to_string n) (to_string-IsDigits n))

stoull-to_string : (n : ℕ) → n < 2 ^ 64 → stoull (to_string n) ≡ some n
unfolding stoull
stoull-to_string n h = ground (arith, value_of-to_string n)

header_line-Plain : (n : ℕ) → Plain (header_line n)
header_line-Plain n =
    Plain-append (codes "Content-Length: ") (to_string n) (ground arith)
      (IsDigits-Plain (to_string n) (to_string-IsDigits n))

frame-append :
    (content more : Bytes)
    → frame content ++ more
      ≡ header_line (length content) ++ (13 ∷ 10 ∷ 13 ∷ 10 ∷ (content ++ more))
unfolding frame
frame-append content more = simp append_assoc

-- A good stream, whether or not a signal has interrupted an earlier read.
module _ (eintr : Bool) where
  abbrev good_input : Bytes → InputStream
  good_input rest = record { rest = rest; good = true; eintr = eintr }

  -- A line that ends in a carriage return and a line feed.
  getline-return :
      (line rest : Bytes)
      → Plain line
      → getline (good_input (line ++ (13 ∷ 10 ∷ rest))) ≡ (line ++ 13 ∷ [], good_input rest)
  unfolding getline
  getline-return line rest plain = ground (
    arith,
    split_line-append (line ++ 13 ∷ []) rest (Plain-append line (13 ∷ []) plain (refl, tt)),
    append_assoc line (13 ∷ []) (10 ∷ rest),
  )

  read_header-number :
      (fuel m n c : ℕ) (cs digits rest : Bytes)
      → Plain (c ∷ cs)
      → match_content_length (c ∷ cs) ≡ some digits
      → stoull digits ≡ some n
      → read_header (suc fuel) m (good_input ((c ∷ cs) ++ (13 ∷ 10 ∷ rest)))
        ≡ read_header fuel n (good_input rest)
  unfolding read_header
  read_header-number fuel m n c cs digits rest plain found number =
      ground (arith, getline-return (c ∷ cs) rest plain, strip_return-append (c ∷ cs))

  read_header-other :
      (fuel m c : ℕ) (cs rest : Bytes)
      → Plain (c ∷ cs)
      → match_content_length (c ∷ cs) ≡ none
      → read_header (suc fuel) m (good_input ((c ∷ cs) ++ (13 ∷ 10 ∷ rest)))
        ≡ read_header fuel m (good_input rest)
  unfolding read_header
  read_header-other fuel m c cs rest plain other =
      ground (arith, getline-return (c ∷ cs) rest plain, strip_return-append (c ∷ cs))

  read_header-end :
      (fuel m : ℕ) (rest : Bytes)
      → read_header (suc fuel) m (good_input (13 ∷ 10 ∷ rest)) ≡ parsed m (good_input rest)
  unfolding read_header
  read_header-end fuel m rest = ground (arith, getline-return [] rest tt, strip_return-append [])

  read_header-header_line :
      (fuel n m : ℕ) (rest : Bytes)
      → n < 2 ^ 64
      → read_header (suc (suc fuel)) m (good_input (header_line n ++ (13 ∷ 10 ∷ 13 ∷ 10 ∷ rest)))
        ≡ parsed n (good_input rest)
  read_header-header_line fuel n m rest h =
      read_header-number (suc fuel) m n 67 (codes "ontent-Length: " ++ to_string n) (to_string n)
        (13 ∷ 10 ∷ rest) (header_line-Plain n) (match_content_length-header_line n)
        (stoull-to_string n h)
      ∙ read_header-end fuel n rest

  read_payload-content :
      (content more : Bytes)
      → 0 < length content
      → length content ≤ 2 ^ 30
      → read_payload (length content) (good_input (content ++ more))
        ≡ message content (good_input more)
  unfolding read_payload read_content
  read_payload-content content more some_content small = ground (
    arith,
    length-append content more,
    take-length-append content more,
    drop-length-append content more,
  )

  -- What `send` writes is read back: from a good stream, whether or not an earlier
  -- read was interrupted, that begins with a framed content of one byte
  -- to 2^30 bytes, the message read is that content, and the stream is left good, at what follows.
  pub read_message-frame :
      (content more : Bytes)
      → 0 < length content
      → length content ≤ 2 ^ 30
      → read_message (record { rest = frame content ++ more; good = true; eintr = eintr })
        ≡ message content (record { rest = more; good = true; eintr = eintr })
  unfolding read_message after_header
  read_message-frame content more some_content small =
      ap (λ s. read_message (good_input s)) (frame-append content more)
      ∙ ap after_header (
          read_header-header_line
            (length (header_line (length content) ++ (13 ∷ 10 ∷ 13 ∷ 10 ∷ (content ++ more))))
            (length content) 0 (content ++ more) (omega arith))
      ∙ read_payload-content content more some_content small

split_line_le : (s : Bytes) → length (split_line s).1 ≤ length s
unfolding split_line
split_line_le [] = ground arith
split_line_le (c ∷ cs) = ground (arith, split_line_le cs)

split_line_shorter :
    (s line : Bytes)
    → strip_return (split_line s).0 ≡ some line
    → length (split_line s).1 < length s
unfolding split_line strip_return
split_line_shorter [] line h = cc h
split_line_shorter (c ∷ cs) line h = let rest = split_line_le cs in ground (arith, rest)

read_header_bad :
    (fuel n : ℕ) (s : InputStream) → s.good ≡ false → read_header (suc fuel) n s ≢ out_of_fuel
unfolding read_header
read_header_bad fuel n s h e = ground arith

-- A line that was read holds a byte, if `back` has a meaning on it.
getline_shorter :
    (s : InputStream) (line : Bytes)
    → strip_return (getline s).0 ≡ some line
    → length (getline s).1.rest < length s.rest
unfolding getline
getline_shorter s line e = split_line_shorter s.rest line e

-- A round that does not end the loop goes on with a shorter text.
read_header_round :
    (fuel n : ℕ) (s : InputStream)
    → read_header (suc fuel) n s ≡ out_of_fuel
    → (m : ℕ) × (s' : InputStream) × (read_header fuel m s' ≡ out_of_fuel)
      × (length s'.rest < length s.rest)
unfolding read_header
read_header_round fuel n s e =
    let next = (getline s).1 in
    elim (Bool-cases s.good) [
      | inr g ↦ absurd (ground arith)
      | inl g ↦ elim (Option-cases (strip_return (getline s).0)) [
        | inl none_left ↦ absurd (ground arith)
        | inr (line, f) ↦
            let less = getline_shorter s line f in
            elim (Bool-cases (not next.good && next.eintr)) [
              | inl cleared ↦ (n, record next { good = true }, ground (arith, g, f, cleared), less)
              | inr kept ↦ elim (List-cases line) [
                | inl empty ↦ absurd (ground (arith, g, f, kept, empty))
                | inr (c, cs, more) ↦ elim (Option-cases (match_content_length (c ∷ cs))) [
                  | inl other ↦ (n, next, ground (arith, g, f, kept, more, other), less)
                  | inr (digits, found) ↦ elim (Option-cases (stoull digits)) [
                    | inl overflow ↦ absurd (ground (arith, g, f, kept, more, found, overflow))
                    | inr (m, number) ↦
                        (m, next, ground (arith, g, f, kept, more, found, number), less)
                  ]
                ]
              ]
            ]
      ]
    ]

read_header_ends :
    (fuel n : ℕ) (s : InputStream) → length s.rest < fuel → read_header fuel n s ≢ out_of_fuel
read_header_ends zero n s h = absurd (omega arith)
read_header_ends (suc fuel) n s h = λ e.
    let (m, s', again, less) = read_header_round fuel n s e in
    read_header_ends fuel m s' (omega (arith, less, h)) again

after_header_ends : (h : Header) → h ≢ out_of_fuel → after_header h ≢ exhausted
unfolding after_header read_payload read_content
after_header_ends (parsed n s) h e = ground arith
after_header_ends undefined_back h e = cc
after_header_ends thrown h e = cc
after_header_ends out_of_fuel h e = h refl

-- The rounds that `read_message` gives its loop are enough, since each takes a byte or has no meaning.
read_message_enough : (s : InputStream) → read_message s ≢ exhausted
unfolding read_message
read_message_enough s =
    after_header_ends (read_header (suc (suc (length s.rest))) 0 s)
      (read_header_ends (suc (suc (length s.rest))) 0 s (omega arith))

-- At the end of the input, and at an empty line that ends in a line feed alone, the stream is still
-- good or the loop is still running, and `back` is called on an empty line: the behaviour is
-- undefined.
pub empty_line_undefined :
    (more : Bytes) (eintr : Bool)
    → (read_message (record { rest = []; good = true; eintr = eintr }) ≡ undefined_behaviour)
      × (read_message (record { rest = 10 ∷ more; good = true; eintr = eintr })
          ≡ undefined_behaviour)
unfolding read_message after_header read_header getline split_line strip_return
empty_line_undefined more eintr = (refl, refl)
