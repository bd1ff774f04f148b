-- ===== src/Tests/Texts.antt =====
-- Edits, positions, ranges and queries of documents.
use p4ls.Prelude.{
  ℕ, ◌<◌, ◌≤◌, length, ◌≡◌, ◌↔◌, ◌⊎◌, refl, inl, inr, true, false, none, some, [], ◌∷◌, ◌++◌, Bytes,
  codes, arith,
}
use p4ls.Info.{Position}
use p4ls.Protocol.Range.{Range, Location, range_lt, ◌&ᵇ◌}
use p4ls.Protocol.Range.Order.{range_lt_strict_weak, later_lines_missed, cursor, Before}
use p4ls.P4Unit.Index.{get_position_index}
use p4ls.P4Unit.Index.Lines.{Means, nil, cons}
use p4ls.P4Unit.Index.Points.{get_position_index_iff}
use p4ls.P4Unit.Edit.{TextDocumentContentChangeEvent, apply_change, apply_changes}
use p4ls.P4Unit.Edit.Splice.{end_of_line_ignored, apply_changes-append}
use p4ls.P4Unit.File.{P4File, new_file, get_hover, get_highlights, get_symbols}
use p4ls.P4Unit.File.Buffer.{done, word, copy_end, buffer_size, copy_end-le-buffer_size}
use p4ls.P4Unit.File.Queries.{SameAnswers, queries_change_no_answer}
use p4ls.Tests.Sample.{nothing_read}
use p4ls.P4Unit.File.Bare.{symbols, hover, run, queries_answer_nothing}

abbrev at_place : ℕ → ℕ → Position
at_place line character = record { line = line; character = character }

abbrev between : Position → Position → Range
between start finish = record { start = start; finish = finish }

abbrev content : Bytes
content = codes "ab\ncd\n"

-- "c" becomes "xy".
abbrev edit : TextDocumentContentChangeEvent
edit = record {
  range = some (between (at_place 1 0) (at_place 1 1));
  range_length = some 1;
  text = codes "xy";
}

edited : apply_change content edit ≡ codes "ab\nxyd\n"
unfolding apply_change get_position_index
edited = refl

found : get_position_index content (at_place 1 1) ≡ some 4
unfolding get_position_index
found = refl

get_position_index_iff_example :
    ((k : ℕ)
      → (get_position_index content (at_place 1 1) ≡ some k)
        ↔ ((m : Means content (at_place 1 1) k) × (1 < length m.line)))
    × ((get_position_index content (at_place 1 1) ≡ none)
        ↔ ((k : ℕ) (m : Means content (at_place 1 1) k) → length m.line ≤ 1))
get_position_index_iff_example = get_position_index_iff content (at_place 1 1)

-- Text is typed behind "cd".
abbrev typed : TextDocumentContentChangeEvent
typed = record {
  range = some (between (at_place 1 2) (at_place 1 2));
  range_length = some 0;
  text = codes ";";
}

end_of_line_ignored_example :
    apply_change (codes "ab\n" ++ (codes "cd" ++ codes "\n")) typed
    ≡ codes "ab\n" ++ (codes "cd" ++ codes "\n")
end_of_line_ignored_example =
    end_of_line_ignored (codes "ab\n") (codes "cd") (codes "\n") typed
      (between (at_place 1 2) (at_place 1 2)) refl (cons (codes "ab") refl nil) refl refl
      (inr ([], refl))

apply_changes-append_example :
    apply_changes content ((edit ∷ []) ++ (typed ∷ []))
    ≡ apply_changes (apply_changes content (edit ∷ [])) (typed ∷ [])
apply_changes-append_example = apply_changes-append content (edit ∷ []) (typed ∷ [])

abbrev one_line : Range
one_line = between (at_place 2 4) (at_place 2 9)

abbrev two_lines : Range
two_lines = between (at_place 2 4) (at_place 4 1)

range_lt_strict_weak_example :
    (range_lt one_line one_line ≡ false)
    × (range_lt one_line two_lines ≡ true
        → range_lt two_lines one_line ≡ true
        → range_lt one_line one_line ≡ true)
    × ((range_lt one_line two_lines ≡ false) × (range_lt two_lines one_line ≡ false)
        ↔ (one_line.start ≡ two_lines.start))
    × ((range_lt one_line two_lines ≡ false) × (range_lt two_lines one_line ≡ false)
        → (range_lt two_lines one_line ≡ false) × (range_lt one_line two_lines ≡ false)
        → (range_lt one_line one_line ≡ false) × (range_lt one_line one_line ≡ false))
range_lt_strict_weak_example = range_lt_strict_weak one_line two_lines one_line

later_lines_missed_example :
    (Before two_lines.start (at_place 4 0) ⊎ (two_lines.start ≡ at_place 4 0))
    × (Before (at_place 4 0) two_lines.finish ⊎ (at_place 4 0 ≡ two_lines.finish))
    × (two_lines &ᵇ cursor (at_place 4 0) ≡ false)
later_lines_missed_example =
    later_lines_missed two_lines (at_place 4 0) (omega arith)
      (inl (omega arith, inl (inr (refl, omega arith))))

abbrev file : P4File
file = record {
  argv = [];
  unit_path = codes "a.p4";
  source_code = content;
  symbols = [];
  definitions = (codes "c", codes "const c") ∷ [];
  locations = (codes "a.p4", (one_line, codes "c") ∷ []) ∷ [];
  highlights = [];
  indexes = [];
  changed = false;
}

abbrev place : Location
place = record { uri = codes "a.p4"; range = cursor (at_place 2 5) }

queries_change_no_answer_example :
    SameAnswers (get_hover file place).0 file × SameAnswers (get_highlights file place).0 file
queries_change_no_answer_example = queries_change_no_answer file place

copy_end-le-buffer_size_example : copy_end 0 (codes "p4" ∷ []) ≤ buffer_size (codes "p4")
copy_end-le-buffer_size_example =
    copy_end-le-buffer_size (codes "p4") (codes "p4" ∷ [])
      (word b'p' (codes "4") refl (inl refl) (done refl))

queries_answer_nothing_example :
    (made : P4File) × (new_file (λ c. []) nothing_read [] (codes "a.p4") content ≡ some made)
    × (f : P4File) × (run (λ c. []) nothing_read made (hover place ∷ symbols ∷ []) ≡ some f)
    × (get_symbols nothing_read f ≡ some (f, []))
    × ((get_hover f place).1 ≡ none)
    × ((get_highlights f place).1 ≡ none)
queries_answer_nothing_example =
    queries_answer_nothing (λ c. []) nothing_read [] (codes "a.p4") content
      (hover place ∷ symbols ∷ []) place (λ p s. ([], refl))
