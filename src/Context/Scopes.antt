-- ===== src/Context/Scopes.antt =====
-- `Scoped_context` of server/lsp/context.h: the constructor makes a layer current, the destructor
-- restores the context before. A program that makes such objects is a sequence of reads and of
-- blocks, one for the life of each object.
use p4ls.Prelude.{ℕ, ◌≡◌, refl, Option, some, List, [], ◌∷◌, ◌++◌, ◌==◌, if◌then◌else◌, arith}
use p4ls.Context.{Anything, Context, get_value, derive, swap_current, get_value-derive}

pub data Block : Type 0 where
  finish : Block
  read : ℕ → Block → Block
  with_value : ℕ → Anything → Block → Block → Block
  with_anonymous : Anything → Block → Block → Block

-- The constructor: the context that is then current, and the one to restore.
unfoldable pub construct : ℕ → Anything → Context → Context × Context
construct key value current = swap_current (derive key value current) current

-- The destructor.
unfoldable pub destroy : Context → Context → Context
destroy previous current = (swap_current previous current).0

-- The keys that are read with what the reads give, and the context at the end. A value without a key has the key of its type.
module _ (private_key : Anything → ℕ) where
  unfoldable pub run : Block → Context → List (ℕ × Option Anything) × Context
  run finish current = ([], current)
  run (read key rest) current =
      let (values, last) = run rest current in ((key, get_value key current) ∷ values, last)
  run (with_value key value body rest) current =
      let (derived, previous) = construct key value current in
      let (inside, left) = run body derived in
      let (values, last) = run rest (destroy previous left) in (inside ++ values, last)
  run (with_anonymous value body rest) current =
      let (derived, previous) = construct (private_key value) value current in
      let (inside, left) = run body derived in
      let (values, last) = run rest (destroy previous left) in (inside ++ values, last)

  -- What the reads are to give: the value of a key that the innermost block around the read has set.
  abbrev pub lexical : Block → (ℕ → Option Anything) → List (ℕ × Option Anything)
  lexical finish env = []
  lexical (read key rest) env = (key, env key) ∷ lexical rest env
  lexical (with_value key value body rest) env =
      lexical body (λ (k : ℕ). if key == k then some value else env k) ++ lexical rest env
  lexical (with_anonymous value body rest) env =
      lexical body (λ (k : ℕ). if private_key value == k then some value else env k)
      ++ lexical rest env

  -- Whatever a program does, its reads give what the blocks around them have set, or else what was
  -- current before, and the context that was current before is current again.
  pub run-lexical :
      (program : Block) (current : Context) (env : ℕ → Option Anything)
      → ((key : ℕ) → get_value key current ≡ env key)
      → run program current ≡ (lexical program env, current)
  unfolding run construct destroy swap_current
  run-lexical finish current env h = refl
  run-lexical (read key rest) current env h =
      let reads = run-lexical rest current env h in let here = h key in ground (arith, reads, here)
  run-lexical (with_value key value body rest) current env h =
      let inner = λ (k : ℕ). if key == k then some value else env k in
      let inside =
        run-lexical body (derive key value current) inner
          (λ k. ground (arith, get_value-derive key k value current, h k)) in
      let after = run-lexical rest current env h in ground (arith, inside, after)
  run-lexical (with_anonymous value body rest) current env h =
      let key = private_key value in
      let inner = λ (k : ℕ). if key == k then some value else env k in
      let inside =
        run-lexical body (derive key value current) inner
          (λ k. ground (arith, get_value-derive key k value current, h k)) in
      let after = run-lexical rest current env h in ground (arith, inside, after)
