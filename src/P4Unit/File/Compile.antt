-- ===== src/P4Unit/File/Compile.antt =====
-- server/lsp/p4unit.cpp, the loop of `compile`: the preprocessor's iterator is moved until it is at the
-- end, and an exception of a move is reported and otherwise ignored. The iterator is a parameter; the
-- moves that the loop makes of it for a unit are `moves` of `Wave`.
use p4ls.Prelude.{
  ℕ, zero, suc, ◌+◌, ◌<◌, ◌≡◌, ◌⊎◌, inl, inr, refl, Bool, true, false, Option, none, some, List, [],
  ◌∷◌, if◌then◌else◌, Bool-cases, arith,
}
use p4ls.P4Unit.File.{Advance}

-- `token != ctx.end()` and `++token`, which moves the iterator or throws, and may then have moved it.
record Iteration : Type 1 where
  I : Type 0
  at_end : I → Bool
  increment : I → Advance × I

module _ (iteration : Iteration) where
  open iteration use {I, at_end, increment}

  abbrev with_move : Advance → Option (List Advance) → Option (List Advance)
  with_move a none = none
  with_move a (some rest) = some (a ∷ rest)

  -- The moves of the loop in order; none if it has not ended.
  unfoldable compile_loop : ℕ → I → Option (List Advance)
  compile_loop zero i = none
  compile_loop (suc fuel) i =
      let rest = compile_loop fuel (increment i).1 in
      if at_end i then some [] else with_move (increment i).0 rest

  with_move-some :
      (a : Advance) (rest : Option (List Advance)) (moves : List Advance)
      → rest ≡ some moves
      → with_move a rest ≡ some (a ∷ moves)
  with_move-some a none moves e = absurd cc
  with_move-some a (some rest) moves e = ground (arith, e)

  -- The loop ends if each move brings the iterator to the end or nearer to it, also one that throws:
  -- as many rounds as it is away from the end and one more are enough.
  compile_loop-ends :
      (distance : I → ℕ) (fuel : ℕ) (i : I)
      → ((i : I)
          → at_end i ≡ false
          → (at_end (increment i).1 ≡ true) ⊎ (distance (increment i).1 < distance i))
      → distance i + 1 < fuel
      → (moves : List Advance) × (compile_loop fuel i ≡ some moves)
  unfolding compile_loop
  compile_loop-ends d zero i h f = absurd (omega arith)
  compile_loop-ends d (suc zero) i h f = absurd (omega arith)
  compile_loop-ends d (suc (suc fuel)) i h f = elim (Bool-cases (at_end i)) [
    | inl e ↦ ([], rw e refl)
    | inr e ↦ elim (h i e) [
      | inl last ↦ ((increment i).0 ∷ [], ground (arith, e, last))
      | inr nearer ↦
          let (moves, more) =
            compile_loop-ends d (suc fuel) (increment i).1 h (omega (arith, nearer)) in
          ((increment i).0 ∷ moves, rw e (with_move-some (increment i).0 _ moves more))
    ]
  ]

  -- The loop never ends on an iterator that is not at the end and that a move leaves as it is: nothing
  -- looks at whether the preprocessor can go on after its exception.
  compile_loop-stuck :
      (fuel : ℕ) (i : I) → at_end i ≡ false → (increment i).1 ≡ i → compile_loop fuel i ≡ none
  unfolding compile_loop
  compile_loop-stuck zero i e s = refl
  compile_loop-stuck (suc fuel) i e s =
      let rest = compile_loop-stuck fuel i e s in rw (e, s, rest) refl
