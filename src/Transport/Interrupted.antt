-- ===== src/Transport/Interrupted.antt =====
-- server/lsp/lsp_server.cpp, `read_message` with reads that a signal interrupts (`EINTR`). Which reads
-- these are is a parameter: for each line none, or the number of bytes that had come before.
use p4ls.Prelude.{
  ℕ, zero, suc, true, false, Option, none, some, List, [], ◌∷◌, ◌++◌, Bytes, if◌then◌else◌, not,
  ◌&&◌, take, drop,
}
use p4ls.Prelude.Decimal.{stoull}
use p4ls.Transport.{
  InputStream, split_line, getline, strip_return, match_content_length, Header, parsed,
  undefined_back, thrown, out_of_fuel, Received, after_header,
}

-- The line that is read, and the stream: an interrupted read fails and leaves `EINTR` in `errno`.
getline_until : Option ℕ → InputStream → Bytes × InputStream
getline_until none s = getline s
getline_until (some k) s =
    let (line, rest, ended) = split_line (take k s.rest) in
    if ended
    then (line, record s { rest = rest ++ drop k s.rest; good = true })
    else (line, record { rest = drop k s.rest; good = false; eintr = true })

-- Behind `line.back()`, a stream that is not good has its failure cleared if `errno` holds `EINTR`,
-- whichever read has left it there.
read_header_until : List (Option ℕ) → ℕ → InputStream → Header
read_header_until [] content_length s = out_of_fuel
read_header_until (i ∷ is) content_length s =
    let (line, s') = getline_until i s in
    let again = read_header_until is content_length (record s' { good = true }) in
    let ignored = read_header_until is content_length s' in
    let matched : Header = elim (strip_return line) [
      | none ↦ undefined_back
      | some [] ↦ parsed content_length s'
      | some (c ∷ cs) ↦ elim (match_content_length (c ∷ cs)) [
        | none ↦ ignored
        | some digits ↦ elim (stoull digits) [ none ↦ thrown | some n ↦ read_header_until is n s' ]
      ]
    ] in
    let round : Header = elim (strip_return line) [
      | none ↦ undefined_back
      | some stripped ↦ if not s'.good && s'.eintr then again else matched
    ] in
    if s.good then round else parsed content_length s

pub read_message_until : List (Option ℕ) → InputStream → Received
read_message_until is s = after_header (read_header_until is 0 s)

abbrev pub uninterrupted : ℕ → List (Option ℕ)
uninterrupted zero = []
uninterrupted (suc n) = none ∷ uninterrupted n
