-- ===== src/P4Unit/Edit.antt =====
-- server/lsp/p4unit.cpp, `P4_file::change_source_code`: the edits of a document's text.
pub mod Splice
use p4ls.Prelude.{
  ℕ, ◌+◌, ◌-◌, Bool, true, ◌&&◌, Option, none, some, List, [], ◌∷◌, ◌++◌, Bytes, take, drop, leb,
  ◌==◌, if◌then◌else◌,
}
use p4ls.Protocol.Range.{Range}
use p4ls.P4Unit.Index.{get_position_index}

-- server/lsp/protocol.h; the length is an `unsigned int`.
pub record TextDocumentContentChangeEvent : Type 0 where
  pub range : Option Range
  pub range_length : Option ℕ
  pub text : Bytes

-- `!it._range_length || *it._range_length == end - start`
abbrev pub length_agrees : Option ℕ → ℕ → ℕ → Bool
length_agrees none start end = true
length_agrees (some n) start end = n == end - start

-- `substr(0, start)`, the new text, `substr(end)`.
abbrev pub splice : Bytes → ℕ → ℕ → Bytes → Bytes
splice source_code start end text = take start source_code ++ (text ++ drop end source_code)

-- The test of a change with a range, on the two indices (`none` is `npos`).
replace : Bytes → Option ℕ → Option ℕ → Option ℕ → Bytes → Bytes
replace source_code none end range_length text = source_code
replace source_code (some start) none range_length text = source_code
replace source_code (some start) (some end) range_length text =
    if leb start end && length_agrees range_length start end
    then splice source_code start end text
    else source_code

-- One round of the loop.
unfoldable pub apply_change : Bytes → TextDocumentContentChangeEvent → Bytes
unfolding replace
apply_change source_code change = elim change.range [
  | none ↦ change.text
  | some range ↦
      replace source_code (get_position_index source_code range.start)
        (get_position_index source_code range.finish) change.range_length change.text
]

-- The loop: each change is applied to what the one before it left.
unfoldable pub apply_changes : Bytes → List TextDocumentContentChangeEvent → Bytes
apply_changes source_code [] = source_code
apply_changes source_code (change ∷ changes) =
    apply_changes (apply_change source_code change) changes
