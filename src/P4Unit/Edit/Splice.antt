-- ===== src/P4Unit/Edit/Splice.antt =====
-- What an edit does to the text: every outcome of `apply_change` against the meaning of its range.
use p4ls.Prelude.{
  ℕ, ◌+◌, ◌<◌, ◌≤◌, ◌≡◌, refl, ◌⊎◌, Option, none, some, List, [], ◌∷◌, ◌++◌, Bytes, length, count,
  arith,
}
use p4ls.Protocol.Range.{Range}
use p4ls.P4Unit.Index.{newline}
use p4ls.P4Unit.Index.Lines.{Means, Lines}
use p4ls.P4Unit.Index.Points.{end_of_line_refused}
use p4ls.P4Unit.Edit.{TextDocumentContentChangeEvent, apply_change, apply_changes}

-- The range names the part `old` of the text: its ends mean the places before and behind that part,
-- and a length that the change states is the part's.
pub record Names (content : Bytes) (range : Range) (range_length : Option ℕ)
    (before old after : Bytes) : Type 0 where
  pub splits : content ≡ before ++ (old ++ after)
  pub start : Means content range.start (length before)
  pub finish : Means content range.finish (length before + length old)
  pub length_is : (range_length ≡ none) ⊎ (range_length ≡ some (length old))

-- Every outcome of a change. What is ignored is a range that names no part, and one that names a part
-- and has an end at or behind the end of its line.
pub data Applied (content : Bytes) (change : TextDocumentContentChangeEvent) (result : Bytes)
    : Type 0 where
  replaced_all : change.range ≡ none → result ≡ change.text → Applied content change result
  replaced :
      (range : Range) (before old after : Bytes)
      → change.range ≡ some range
      → (n : Names content range change.range_length before old after)
      → range.start.character < length n.start.line
      → range.finish.character < length n.finish.line
      → result ≡ before ++ (change.text ++ after)
      → Applied content change result
  ignored :
      (range : Range)
      → change.range ≡ some range
      → ((before old after : Bytes)
          → (n : Names content range change.range_length before old after)
          → (length n.start.line ≤ range.start.character)
            ⊎ (length n.finish.line ≤ range.finish.character))
      → result ≡ content
      → Applied content change result

-- Text typed at the end of a line is lost: a change whose range starts there, behind
-- `range.start.line` whole lines and the whole of one more line, leaves the text as it was.
pub end_of_line_ignored :
    (before line rest : Bytes) (change : TextDocumentContentChangeEvent) (range : Range)
    → change.range ≡ some range
    → Lines range.start.line before
    → count newline line ≡ 0
    → length line ≡ range.start.character
    → (rest ≡ []) ⊎ ((after : Bytes) × (rest ≡ newline ∷ after))
    → apply_change (before ++ (line ++ rest)) change ≡ before ++ (line ++ rest)
unfolding apply_change
end_of_line_ignored before line rest change range e lines clean len ends =
    ground (arith, end_of_line_refused before line rest range.start lines clean len ends)

-- A later batch of changes sees the text that the earlier batch left.
pub apply_changes-append :
    (content : Bytes) (xs ys : List TextDocumentContentChangeEvent)
    → apply_changes content (xs ++ ys) ≡ apply_changes (apply_changes content xs) ys
unfolding apply_changes
apply_changes-append content [] ys = refl
apply_changes-append content (x ∷ xs) ys = apply_changes-append (apply_change content x) xs ys
