-- ===== src/P4Unit/File/Buffer.antt =====
-- server/lsp/p4unit.cpp, the constructor of `P4_file`: the command's words are copied, each with
-- its NUL, into one buffer of `command.size() + 1` bytes.
use p4ls.Prelude.{
  ℕ, ◌+◌, ◌≤◌, ◌≡◌, ◌⊎◌, List, [], ◌∷◌, ◌++◌, Bytes, length, length-append, count, arith,
}

-- `arg` after the loop, as an offset in the buffer.
pub copy_end : ℕ → List Bytes → ℕ
copy_end arg [] = arg
copy_end arg (token ∷ tokens) = copy_end (arg + (length token + 1)) tokens

-- `_command`: the size of the buffer.
pub buffer_size : Bytes → ℕ
buffer_size command = length command + 1

-- The words of a command, as the documentation of `boost::char_separator` gives them: blanks are
-- dropped, and a word is a run with no blank that ends where the text ends or a blank stands.
abbrev StartsBlank : Bytes → Type 0
StartsBlank s = (s ≡ []) ⊎ ((rest : Bytes) × (s ≡ b' ' ∷ rest))

pub data Splits : Bytes → List Bytes → Type 0 where
  done : {s : Bytes} → s ≡ [] → Splits s []
  blank : {s : Bytes} {tokens : List Bytes} → Splits s tokens → Splits (b' ' ∷ s) tokens
  word :
      {rest : Bytes} {tokens : List Bytes} (c : ℕ) (token : Bytes)
      → count b' ' (c ∷ token) ≡ 0
      → StartsBlank rest
      → Splits rest tokens
      → Splits (c ∷ (token ++ rest)) ((c ∷ token) ∷ tokens)

total : List Bytes → ℕ
total [] = 0
total (token ∷ tokens) = (length token + 1) + total tokens

copy_end-total : (arg : ℕ) (tokens : List Bytes) → copy_end arg tokens ≡ arg + total tokens
unfolding copy_end total
copy_end-total arg [] = omega arith
copy_end-total arg (token ∷ tokens) =
    omega (arith, copy_end-total (arg + (length token + 1)) tokens)

-- A text that begins with a blank leaves one byte more.
total-le :
    {s : Bytes} {tokens : List Bytes}
    → Splits s tokens
    → (total tokens ≤ length s + 1) × (StartsBlank s → total tokens ≤ length s)
unfolding total
total-le (done e) = (omega arith, λ _. omega arith)
total-le (blank h) = (omega (arith, (total-le h).0), λ _. omega (arith, (total-le h).0))
total-le (word {rest} c token clean starts h) =
    let bound = (total-le h).1 starts in
    (
      omega (arith, bound, length-append token rest),
      λ b. ground (arith, bound, length-append token rest, b),
    )

-- The words that a command splits into at its blanks fit: the copy ends within the buffer.
pub copy_end-le-buffer_size :
    (command : Bytes) (tokens : List Bytes)
    → Splits command tokens
    → copy_end 0 tokens ≤ buffer_size command
unfolding buffer_size
copy_end-le-buffer_size command tokens h = omega (arith, copy_end-total 0 tokens, (total-le h).0)
