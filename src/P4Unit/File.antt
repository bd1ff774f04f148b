-- ===== src/P4Unit/File.antt =====
-- server/lsp/p4unit.h and p4unit.cpp, `P4_file`: one open document and its symbol tables.
-- The code that fills the tables is compiled out (`#if 0`): what is left of `compile` runs the
-- preprocessor of Boost.Wave over the text and reports its errors on the standard error stream.
pub mod Buffer
pub mod Queries
pub mod Bare
pub mod Compile
use p4ls.Prelude.{
  ℕ, ◌+◌, ◌≡◌, Bool, true, Option, none, some, List, [], ◌∷◌, ◌++◌, Bytes, codes, length, lookup,
  emplace, if◌then◌else◌, arith,
}
use p4ls.Prelude.Decimal.{to_string}
use p4ls.Protocol.Range.{Range, Location, ◌&ᵇ◌}
use p4ls.Protocol.Encode.{SymbolInformation, TextDocumentHighlight}
use p4ls.P4Unit.Edit.{TextDocumentContentChangeEvent, apply_changes}

-- A `std::map<Range, std::string>` in its order.
abbrev pub Locations : Type 0
Locations = List (Range × Bytes)

pub record P4File : Type 0 where
  pub argv : List Bytes
  pub unit_path : Bytes
  pub source_code : Bytes
  pub symbols : List SymbolInformation
  pub definitions : List (Bytes × Bytes)
  pub locations : List (Bytes × Locations)
  pub highlights : List (Bytes × List TextDocumentHighlight)
  pub indexes : List (Bytes × ℕ)
  pub changed : Bool

-- One `++token` of the loop in `compile`: the preprocessor goes on, or throws.
pub data Advance : Type 0 where
  advanced : Advance
  cpp_exception : Bytes → ℕ → Bytes → Advance
  std_exception : Bytes → Advance
  unknown_exception : Advance

-- `file(line): text`
abbrev pub report : Bytes → ℕ → Bytes → Bytes
report file line text = file ++ (codes "(" ++ (to_string line ++ (codes "): " ++ text)))

-- What the preprocessor does with a unit's path and text: the moves of the loop in order, and none if
-- the loop never ends. `file` and `line` are those of a token that nothing was read into.
pub record Wave : Type 0 where
  pub moves : Bytes → Bytes → Option (List Advance)
  pub file : Bytes
  pub line : ℕ

-- The loop ends on a unit.
abbrev pub Compiles : Wave → Bytes → Bytes → Type 0
Compiles wave path text = (moves : List Advance) × (wave.moves path text ≡ some moves)

-- The `catch` clauses: a line on the standard error stream for each exception. Only the first kind
-- has a place of its own; the others print that of `current_token`, into which nothing is read.
pub reports : Wave → List Advance → List Bytes
reports wave [] = []
reports wave (advanced ∷ rest) = reports wave rest
reports wave (cpp_exception file line description ∷ rest) =
    report file line description ∷ reports wave rest
reports wave (std_exception what ∷ rest) =
    report wave.file wave.line (codes "unexpected exception: " ++ what) ∷ reports wave rest
reports wave (unknown_exception ∷ rest) =
    report wave.file wave.line (codes "unexpected exception.") ∷ reports wave rest

-- `none` if the loop over the preprocessor never ends.
unfoldable pub compile : Wave → P4File → Option (P4File × List Bytes)
unfolding reports
compile wave f = elim (wave.moves f.unit_path f.source_code) [
  | none ↦ none
  | some moves ↦ some (f, reports wave moves)
]

-- The constructor, up to its call of `compile`; `tokens` splits the command at its blanks
-- (`boost::tokenizer`).
abbrev pub uncompiled : (Bytes → List Bytes) → Bytes → Bytes → Bytes → P4File
uncompiled tokens command unit_path text = record {
  argv = tokens command;
  unit_path = unit_path;
  source_code = text;
  symbols = [];
  definitions = [];
  locations = [];
  highlights = [];
  indexes = [];
  changed = true;
}

unfoldable pub new_file : (Bytes → List Bytes) → Wave → Bytes → Bytes → Bytes → Option P4File
unfolding compile
new_file tokens wave command unit_path text =
    elim (compile wave (uncompiled tokens command unit_path text)) [
      | none ↦ none
      | some (f, _) ↦ some f
    ]

unfoldable pub change_source_code : P4File → List TextDocumentContentChangeEvent → P4File
change_source_code f content_changes = record f {
  changed = true;
  source_code = apply_changes f.source_code content_changes;
}

unfoldable pub get_symbols : Wave → P4File → Option (P4File × List SymbolInformation)
unfolding compile
get_symbols wave f =
    let compiled : Option (P4File × List SymbolInformation) = elim (compile wave f) [
      | none ↦ none
      | some (f', _) ↦ some (f', f'.symbols)
    ] in
    if f.changed then compiled else some (f, f.symbols)

-- A unit on which the loop ends is compiled, and as the code stands that changes nothing of it.
pub new_file-Compiles :
    (tokens : Bytes → List Bytes) (wave : Wave) (command path text : Bytes)
    → Compiles wave path text
    → new_file tokens wave command path text ≡ some (uncompiled tokens command path text)
unfolding new_file compile
new_file-Compiles tokens wave command path text (moves, e) = ground (arith, e)

pub get_symbols-Compiles :
    (wave : Wave) (f : P4File)
    → Compiles wave f.unit_path f.source_code
    → get_symbols wave f ≡ some (f, f.symbols)
unfolding get_symbols compile
get_symbols-Compiles wave f (moves, e) = ground (arith, e)

-- `m[k]` on an `unordered_map`: a missing entry is made, with the empty value.
unfoldable pub get_or_insert {ℓ} :
    {V : Type ℓ} → V → Bytes → List (Bytes × V) → V × List (Bytes × V)
get_or_insert empty k m = elim (lookup k m) [ some v ↦ (v, m) | none ↦ (empty, emplace k empty m) ]

-- The loop over a unit's locations, up to the first that holds the place asked for.
unfoldable pub first_at : Range → Locations → Option Bytes
first_at place [] = none
first_at place ((range, name) ∷ rest) = if range &ᵇ place then some name else first_at place rest

unfoldable pub get_hover : P4File → Location → P4File × Option Bytes
unfolding get_or_insert first_at
get_hover f location =
    let (found, locations) = get_or_insert [] location.uri f.locations in
    (
      record f { locations = locations },
      elim (first_at location.range found) [ none ↦ none | some name ↦ lookup name f.definitions ],
    )

unfoldable pub get_highlights : P4File → Location → P4File × Option (List TextDocumentHighlight)
unfolding get_or_insert first_at
get_highlights f location =
    let (found, locations) = get_or_insert [] location.uri f.locations in
    elim (first_at location.range found) [
      | none ↦ (record f { locations = locations }, none)
      | some name ↦
          let (highlights, table) = get_or_insert [] name f.highlights in
          (record f { locations = locations; highlights = table }, some highlights)
    ]
