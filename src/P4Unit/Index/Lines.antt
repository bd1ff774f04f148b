-- ===== src/P4Unit/Index/Lines.antt =====
-- The lines of a text, and where `get_position_index` finds them.
use p4ls.Prelude.{
  ℕ, zero, suc, ◌+◌, ◌≡◌, ◌⊎◌, ltb, if◌then◌else◌, refl, sym, ap, ◌∙◌, inl, inr, none, some, [],
  ◌∷◌, ◌++◌, append_assoc, Bytes, length, ◌==◌, count, Bool-cases, Option-cases, length-append,
  drop-length-append, arith,
}
use p4ls.Info.{Position}
use p4ls.P4Unit.Index.{newline, index_of, find_first_of, line_start}

-- `n` lines, each with the newline that ends it.
pub data Lines : ℕ → Bytes → Type 0 where
  nil : Lines zero []
  cons :
      {n : ℕ} {rest : Bytes} (line : Bytes)
      → count newline line ≡ 0
      → Lines n rest
      → Lines (suc n) (line ++ newline ∷ rest)

-- Index `k` is what `Position` of server/p4l/info.h means: behind `p.line` whole lines, the gap before
-- the byte `p.character` of the next line, or the end of that line if the line has no such byte.
pub record Means (content : Bytes) (p : Position) (k : ℕ) : Type 0 where
  pub before : Bytes
  pub line : Bytes
  pub rest : Bytes
  pub splits : content ≡ before ++ (line ++ rest)
  pub lines : Lines p.line before
  pub one_line : count newline line ≡ 0
  pub ends : (rest ≡ []) ⊎ ((after : Bytes) × (rest ≡ newline ∷ after))
  pub index_is :
      k ≡ length before + (if ltb p.character (length line) then p.character else length line)

index_of-some :
    (c : ℕ) (s : Bytes) {k : ℕ}
    → index_of c s ≡ some k
    → (line : Bytes) × (rest : Bytes) × (s ≡ line ++ c ∷ rest)
      × (length line ≡ k)
      × (count c line ≡ 0)
unfolding index_of
index_of-some c [] h = cc
index_of-some c (x ∷ s) h = elim (Bool-cases (x == c)) [
  | inl e ↦ ([], s, ground arith, ground arith, refl)
  | inr ne ↦ elim (Option-cases (index_of c s)) [
    | inl e ↦ absurd (ground arith)
    | inr (j, e) ↦
        let (line, rest, splits, len, clean) = index_of-some c s e in
        (x ∷ line, rest, ap (◌∷◌ x) splits, ground arith, ground arith)
  ]
]

pub index_of-append :
    (c : ℕ) (line rest : Bytes)
    → count c line ≡ 0
    → index_of c (line ++ c ∷ rest) ≡ some (length line)
unfolding index_of
index_of-append c [] rest h = ground arith
index_of-append c (x ∷ line) rest h = ground (arith, index_of-append c line rest)

pub index_of-none : (c : ℕ) (s : Bytes) → count c s ≡ 0 → index_of c s ≡ none
unfolding index_of
index_of-none c [] h = refl
index_of-none c (x ∷ s) h = ground (arith, index_of-none c s)

pub find_first_of-append :
    (pre rest : Bytes) (c : ℕ)
    → find_first_of (pre ++ rest) c (length pre)
      ≡ elim (index_of c rest) [ none ↦ none | some k ↦ some (length pre + k) ]
unfolding find_first_of
find_first_of-append pre rest c = rw (drop-length-append pre rest, find_first_of)

length-line :
    (pre line xs : Bytes)
    → length (pre ++ (line ++ newline ∷ [])) + length xs
      ≡ length pre + length (line ++ newline ∷ xs)
length-line pre line xs = omega (
  arith,
  length-append pre (line ++ newline ∷ []),
  length-append line (newline ∷ []),
  length-append line (newline ∷ xs),
)

-- Passing one line.
line_start-suc :
    (pre line rest : Bytes) (n : ℕ)
    → count newline line ≡ 0
    → line_start (pre ++ (line ++ newline ∷ rest)) (suc n) (length pre)
      ≡ line_start
          ((pre ++ (line ++ newline ∷ [])) ++ rest)
          n
          (length (pre ++ (line ++ newline ∷ [])))
unfolding line_start
line_start-suc pre line rest n clean =
    let here : find_first_of (pre ++ (line ++ newline ∷ rest)) newline (length pre)
        ≡ some (length pre + length line) =
      find_first_of-append pre _ newline ∙ (rw (index_of-append newline line rest clean) refl) in
    let end : length (pre ++ (line ++ newline ∷ [])) ≡ length pre + length line + 1 =
      omega (arith, length-append pre (line ++ newline ∷ []), length-append line (newline ∷ [])) in
    rw (here, line_start)
      (rw
        (end, append_assoc pre (line ++ newline ∷ []) rest, append_assoc line (newline ∷ []) rest))

pub line_start-Lines :
    {n : ℕ} {passed : Bytes} (pre left : Bytes)
    → Lines n passed
    → line_start (pre ++ (passed ++ left)) n (length pre) ≡ some (length pre + length passed)
unfolding line_start
line_start-Lines pre left nil = ground arith
line_start-Lines pre left (cons {n} {rest} line clean more) =
    rw (append_assoc line (newline ∷ rest) left) (
      line_start-suc pre line (rest ++ left) n clean
      ∙ line_start-Lines (pre ++ (line ++ newline ∷ [])) left more
      ∙ ap some (length-line pre line rest))

pub line_start-some :
    (n : ℕ) (pre rest : Bytes) {i : ℕ}
    → line_start (pre ++ rest) n (length pre) ≡ some i
    → (passed : Bytes) × (left : Bytes) × (rest ≡ passed ++ left)
      × (i ≡ length pre + length passed)
      × Lines n passed
unfolding line_start
line_start-some zero pre rest h = ([], rest, refl, ground arith, nil)
line_start-some (suc n) pre rest h = elim (Option-cases (index_of newline rest)) [
  | inl e ↦ absurd (ground (arith, find_first_of-append pre rest newline))
  | inr (k, e) ↦
      let (line, tail, splits, len, clean) = index_of-some newline rest e in
      let pre' = pre ++ (line ++ newline ∷ []) in
      let next =
        sym (line_start-suc pre line tail n clean)
        ∙ ap (λ (t : Bytes). line_start (pre ++ t) (suc n) (length pre)) (sym splits)
        ∙ h in
      let (passed, left, splits', i_is, more) = line_start-some n pre' tail next in
      (
        line ++ newline ∷ passed,
        left,
        splits
            ∙ ap (λ t. line ++ newline ∷ t) splits'
            ∙ sym (append_assoc line (newline ∷ passed) left),
        i_is ∙ length-line pre line passed,
        cons line clean more,
      )
]
