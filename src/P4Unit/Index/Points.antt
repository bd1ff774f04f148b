-- ===== src/P4Unit/Index/Points.antt =====
-- Where a position points: `get_position_index` against a description of the text's lines.
use p4ls.Prelude.{
  ℕ, ◌+◌, ◌<◌, ◌≤◌, ◌≡◌, ltb, ◌==◌, Bool-cases, refl, ap, ◌∙◌, ◌↔◌, ◌⊎◌, inl, inr, none, some, [],
  ◌∷◌, ◌++◌, append-nil, Bytes, length, count, Option-cases, length-append, arith,
}
use p4ls.Info.{Position}
use p4ls.P4Unit.Index.{newline, index_of, line_start, line_end, get_position_index}
use p4ls.P4Unit.Index.Lines.{
  Lines, Means, index_of-append, index_of-none, find_first_of-append, line_start-Lines,
  line_start-some,
}

-- The length of the first line of a text, as `line_end` finds it.
first_line : Bytes → ℕ
first_line left = elim (index_of newline left) [ none ↦ length left | some k ↦ k ]

-- The first line of a text, and what follows it.
split_first :
    (left : Bytes)
    → (line : Bytes) × (rest : Bytes) × (left ≡ line ++ rest)
      × (count newline line ≡ 0)
      × ((rest ≡ []) ⊎ ((after : Bytes) × (rest ≡ newline ∷ after)))
split_first [] = ([], [], refl, refl, inl refl)
split_first (x ∷ left) = elim (Bool-cases (x == newline)) [
  | inl e ↦ ([], x ∷ left, refl, refl, inr (left, ap (λ y. y ∷ left) (ground (arith, e))))
  | inr ne ↦
      let (line, rest, splits, clean, ends) = split_first left in
      (x ∷ line, rest, ap (◌∷◌ x) splits, ground (arith, ne, clean), ends)
]

first_line-end :
    (line rest : Bytes)
    → count newline line ≡ 0
    → (rest ≡ []) ⊎ ((after : Bytes) × (rest ≡ newline ∷ after))
    → first_line (line ++ rest) ≡ length line
unfolding first_line
first_line-end line rest clean (inl e) =
    rw (e, append-nil line) (rw (index_of-none newline line clean, first_line))
first_line-end line rest clean (inr (after, e)) =
    rw e (rw (index_of-append newline line after clean, first_line))

line_end-append :
    (pre left : Bytes) → line_end (pre ++ left) (length pre) ≡ length pre + first_line left
unfolding line_end first_line
line_end-append pre left =
    ground (arith, find_first_of-append pre left newline, length-append pre left)

line_end-splits :
    (content passed left : Bytes) (i : ℕ)
    → content ≡ passed ++ left
    → i ≡ length passed
    → line_end content i ≡ length passed + first_line left
line_end-splits content passed left i splits at = rw (splits, at) (line_end-append passed left)

-- The index that is found is the one that is meant, and the line has a byte there.
get_position_index-Means :
    (content : Bytes) (p : Position) (k : ℕ)
    → get_position_index content p ≡ some k
    → (m : Means content p k) × (p.character < length m.line)
unfolding get_position_index
get_position_index-Means content p k h = elim (Option-cases (line_start content p.line 0)) [
  | inl e ↦ absurd (ground arith)
  | inr (i, e) ↦
      let (passed, left, splits, at, lines) = line_start-some p.line [] content e in
      let end = line_end-splits content passed left i splits (omega arith) in
      let (line, rest, splits', clean, ends) = split_first left in
      let whole : first_line left ≡ length line =
        ap first_line splits' ∙ first_line-end line rest clean ends in
      let inside : p.character < length line = ground arith in
      (
        record {
          before = passed;
          line = line;
          rest = rest;
          splits = splits ∙ ap (λ t. passed ++ t) splits';
          lines = lines;
          one_line = clean;
          ends = ends;
          index_is = ground arith;
        },
        inside,
      )
]

line_start-before :
    {n : ℕ} (before left : Bytes)
    → Lines n before
    → line_start (before ++ left) n 0 ≡ some (length before)
line_start-before before left lines = line_start-Lines [] left lines ∙ ap some (omega arith)

Means-get_position_index :
    (content : Bytes) (p : Position) (k : ℕ) (m : Means content p k)
    → p.character < length m.line
    → get_position_index content p ≡ some k
unfolding get_position_index
Means-get_position_index content p k m inside =
    let text = m.line ++ m.rest in
    let start : line_start content p.line 0 ≡ some (length m.before) =
      rw m.splits (line_start-before m.before text m.lines) in
    let end = line_end-splits content m.before text (length m.before) m.splits refl in
    let whole = first_line-end m.line m.rest m.one_line m.ends in
    let index = m.index_is in ground (arith, start, end, whole, inside, index)

-- An index is found exactly where the position stands before a byte of its line, and it is the one
-- that the position means. None is found exactly where the position means no index, for want of
-- its line, or its character is at or behind the end of its line.
pub get_position_index_iff :
    (content : Bytes) (p : Position)
    → ((k : ℕ)
        → (get_position_index content p ≡ some k)
          ↔ ((m : Means content p k) × (p.character < length m.line)))
      × ((get_position_index content p ≡ none)
          ↔ ((k : ℕ) (m : Means content p k) → length m.line ≤ p.character))
get_position_index_iff content p = (
  λ k. (get_position_index-Means content p k, λ m. Means-get_position_index content p k m.0 m.1),
  (
    λ n k m. elim (Bool-cases (ltb p.character (length m.line))) [
      | inl inside ↦
          let found = Means-get_position_index content p k m (ground (arith, inside)) in
          absurd (cc (n, found))
      | inr outside ↦ ground (arith, outside)
    ],
    λ out. elim (Option-cases (get_position_index content p)) [
      | inl n ↦ n
      | inr (k, e) ↦
          let (m, inside) = get_position_index-Means content p k e in
          absurd (omega (arith, inside, out k m))
    ],
  ),
)

-- A position at the end of its line, where text is typed, has no index: behind `p.line` whole
-- lines, the text goes on with `p.character` bytes of one line and then ends or has a newline.
pub end_of_line_refused :
    (before line rest : Bytes) (p : Position)
    → Lines p.line before
    → count newline line ≡ 0
    → length line ≡ p.character
    → (rest ≡ []) ⊎ ((after : Bytes) × (rest ≡ newline ∷ after))
    → get_position_index (before ++ (line ++ rest)) p ≡ none
unfolding get_position_index
end_of_line_refused before line rest p lines clean len ends = ground (
  arith,
  line_start-before before (line ++ rest) lines,
  line_end-splits _ before (line ++ rest) (length before) refl refl,
  first_line-end line rest clean ends,
)
