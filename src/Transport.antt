-- ===== src/Transport.antt =====
-- server/lsp/lsp_server.cpp, `read_message`: the messages in the bytes of the input stream. Here no
-- signal interrupts a read, but one may have interrupted an earlier one; Interrupted is about the reads
-- that one does interrupt.
pub mod Framing
pub mod Interrupted
pub mod Loop
pub mod Progress
use p4ls.Prelude.{
  ℕ, zero, suc, ◌^◌, ◌&&◌, not, Bool, true, false, Option, none, some, List, [], ◌∷◌, Bytes, codes,
  ltb, leb, ◌==◌, if◌then◌else◌, length, take, drop,
}
use p4ls.Prelude.Decimal.{is_digit, stoull}

-- `good`: neither the end nor a failure has been met. `eintr`: `errno` holds `EINTR`, which stays there
-- when a later read succeeds or meets the end; what else may set `errno` is not looked at.
pub record InputStream : Type 0 where
  pub rest : Bytes
  pub good : Bool
  pub eintr : Bool

-- The line, what follows it, and whether it was ended.
unfoldable pub split_line : Bytes → Bytes × Bytes × Bool
split_line [] = ([], [], false)
split_line (c ∷ cs) =
    let (line, rest, ended) = split_line cs in
    if c == 10 then ([], cs, true) else (c ∷ line, rest, ended)

-- `std::getline` on a good stream: a line that the input ends in is the last.
unfoldable pub getline : InputStream → Bytes × InputStream
unfolding split_line
getline s =
    let (line, rest, ended) = split_line s.rest in
    (line, record { rest = rest; good = ended; eintr = s.eintr })

-- `if (line.back() == '\r') line.pop_back()`, which has no meaning on an empty line.
unfoldable pub strip_return : Bytes → Option Bytes
strip_return [] = none
strip_return (c ∷ []) = if c == 13 then some [] else some (c ∷ [])
strip_return (c ∷ d ∷ cs) = elim (strip_return (d ∷ cs)) [
  | none ↦ none
  | some line ↦ some (c ∷ line)
]

-- What follows a prefix.
unfoldable pub after_prefix : Bytes → Bytes → Option Bytes
after_prefix [] s = some s
after_prefix (p ∷ ps) [] = none
after_prefix (p ∷ ps) (c ∷ cs) = let rest = after_prefix ps cs in if p == c then rest else none

unfoldable pub all_digits : Bytes → Bool
all_digits [] = true
all_digits (c ∷ cs) = is_digit c && all_digits cs

-- `regex_match` with "Content-Length: ([0-9]+)": the digits.
unfoldable pub match_content_length : Bytes → Option Bytes
unfolding after_prefix all_digits
match_content_length line = elim (after_prefix (codes "Content-Length: ") line) [
  | none ↦ none
  | some [] ↦ none
  | some (c ∷ cs) ↦ if all_digits (c ∷ cs) then some (c ∷ cs) else none
]

-- The end of the loop over the header, an undefined `back`, or the exception of `stoull`.
pub data Header : Type 0 where
  parsed : ℕ → InputStream → Header
  undefined_back thrown out_of_fuel : Header

-- The loop. Behind a line that the input ends in, `errno` may still tell of an earlier interruption: the
-- stream is cleared, and the line dropped.
unfoldable pub read_header : ℕ → ℕ → InputStream → Header
read_header zero content_length s = out_of_fuel
read_header (suc fuel) content_length s =
    let (line, s') = getline s in
    let again = read_header fuel content_length (record s' { good = true }) in
    let ignored = read_header fuel content_length s' in
    let matched : Header = elim (strip_return line) [
      | none ↦ undefined_back
      | some [] ↦ parsed content_length s'
      | some (c ∷ cs) ↦ elim (match_content_length (c ∷ cs)) [
        | none ↦ ignored
        | some digits ↦ elim (stoull digits) [ none ↦ thrown | some n ↦ read_header fuel n s' ]
      ]
    ] in
    let round : Header = elim (strip_return line) [
      | none ↦ undefined_back
      | some stripped ↦ if not s'.good && s'.eintr then again else matched
    ] in
    if s.good then round else parsed content_length s

pub data Received : Type 0 where
  message : Bytes → InputStream → Received
  nothing : InputStream → Received
  undefined_behaviour terminated exhausted : Received

-- `read` and `ignore`, on a stream that may have failed.
unfoldable pub read_content : ℕ → InputStream → Received
read_content n s =
    if s.good && leb n (length s.rest)
    then message (take n s.rest) (record s { rest = drop n s.rest; good = true })
    else nothing (record s { rest = drop n s.rest; good = false })

-- A length from 2^63 on is negative as a `streamsize`, and nothing is skipped.
unfoldable pub ignore : ℕ → InputStream → InputStream
ignore n s =
    if s.good && ltb n (2 ^ 63)
    then record s { rest = drop n s.rest; good = leb n (length s.rest) }
    else s

-- What is done with the content's length: too much is skipped, nothing is read for zero.
unfoldable pub read_payload : ℕ → InputStream → Received
read_payload n s =
    if ltb (2 ^ 30) n then nothing (ignore n s) else if ltb 0 n then read_content n s else nothing s

unfoldable pub after_header : Header → Received
after_header (parsed n s) = read_payload n s
after_header undefined_back = undefined_behaviour
after_header thrown = terminated
after_header out_of_fuel = exhausted

-- Each round reads a byte at least, or the last.
unfoldable pub read_message : InputStream → Received
read_message s = after_header (read_header (suc (suc (length s.rest))) 0 s)
