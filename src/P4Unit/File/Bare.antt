-- ===== src/P4Unit/File/Bare.antt =====
-- What the queries answer as the code stands, with the passes that fill the tables compiled out.
use p4ls.Prelude.{◌≡◌, refl, ap, ◌∙◌, Option, none, some, List, [], ◌∷◌, Bytes, arith, lookup}
use p4ls.Protocol.Range.{Range, Location}
use p4ls.P4Unit.Edit.{TextDocumentContentChangeEvent}
use p4ls.P4Unit.File.{
  Locations, P4File, Wave, Compiles, uncompiled, new_file, new_file-Compiles, get_symbols-Compiles,
  change_source_code, get_symbols, get_hover, get_highlights, first_at, get_or_insert,
}
use p4ls.P4Unit.File.Queries.{
  entry, get_hover_answer, get_highlights_answer, hover_of, highlights_of, name_at,
  queries_change_no_answer, hover_keeps_locations, highlights_keep_locations,
}

-- The calls that the server makes on a document.
pub data Call : Type 0 where
  change : List TextDocumentContentChangeEvent → Call
  symbols : Call
  hover highlights : Location → Call

empty_entry : (k : Bytes) → entry {V = Locations} [] k [] ≡ []
unfolding get_or_insert lookup
empty_entry k = refl

no_entry : (r : Range) → first_at r [] ≡ none
unfolding first_at
no_entry r = refl

module _ (tokens : Bytes → List Bytes) (wave : Wave) where
  -- `none` if the loop of `compile` never ends.
  pub step : P4File → Call → Option P4File
  step f (change changes) = some (change_source_code f changes)
  step f symbols = elim (get_symbols wave f) [ none ↦ none | some (f', _) ↦ some f' ]
  step f (hover location) = some (get_hover f location).0
  step f (highlights location) = some (get_highlights f location).0

  pub run : P4File → List Call → Option P4File
  run f [] = some f
  run f (c ∷ cs) = elim (step f c) [ none ↦ none | some f' ↦ run f' cs ]

  -- No symbols, and no name at any place.
  record IsBare (f : P4File) : Type 0 where
    no_symbols : f.symbols ≡ []
    no_locations : (k : Bytes) → entry [] k f.locations ≡ []

  step-IsBare :
      (ends : (path text : Bytes) → Compiles wave path text) (f : P4File) (c : Call)
      → IsBare f
      → (f' : P4File) × (step f c ≡ some f') × IsBare f'
  unfolding step change_source_code
  step-IsBare ends f (change changes) b = (
    change_source_code f changes,
    refl,
    record { no_symbols = b.no_symbols; no_locations = b.no_locations },
  )
  step-IsBare ends f symbols b =
      let same = get_symbols-Compiles wave f (ends f.unit_path f.source_code) in
      (f, ground (arith, same), b)
  step-IsBare ends f (hover location) b = (
    (get_hover f location).0,
    refl,
    record {
      no_symbols = (queries_change_no_answer f location).0.symbols ∙ b.no_symbols;
      no_locations = λ k. hover_keeps_locations f location k ∙ b.no_locations k;
    },
  )
  step-IsBare ends f (highlights location) b = (
    (get_highlights f location).0,
    refl,
    record {
      no_symbols = (queries_change_no_answer f location).1.symbols ∙ b.no_symbols;
      no_locations = λ k. highlights_keep_locations f location k ∙ b.no_locations k;
    },
  )

  run-IsBare :
      (ends : (path text : Bytes) → Compiles wave path text) (f : P4File) (cs : List Call)
      → IsBare f
      → (f' : P4File) × (run f cs ≡ some f') × IsBare f'
  unfolding run
  run-IsBare ends f [] b = (f, refl, b)
  run-IsBare ends f (c ∷ cs) b =
      let (f', e, b') = step-IsBare ends f c b in
      let (f'', e', b'') = run-IsBare ends f' cs b' in (f'', ground (arith, e, e'), b'')

  new_file-IsBare : (command path text : Bytes) → IsBare (uncompiled tokens command path text)
  new_file-IsBare command path text = record {
    no_symbols = refl;
    no_locations = λ k. empty_entry k;
  }

  -- Where the loop over the preprocessor ends on every text, a document can be made and any
  -- history of calls goes through, and after it the document has no symbol, no hover text and no
  -- highlight anywhere.
  pub queries_answer_nothing :
      (command path text : Bytes) (history : List Call) (location : Location)
      → ((path text : Bytes) → Compiles wave path text)
      → (made : P4File) × (new_file tokens wave command path text ≡ some made)
        × (f : P4File) × (run made history ≡ some f)
        × (get_symbols wave f ≡ some (f, []))
        × ((get_hover f location).1 ≡ none)
        × ((get_highlights f location).1 ≡ none)
  queries_answer_nothing command path text history location ends =
      let made = uncompiled tokens command path text in
      let (f, e, b) = run-IsBare ends made history (new_file-IsBare command path text) in
      let nowhere : name_at f location ≡ none =
        ap (first_at location.range) (b.no_locations location.uri) ∙ no_entry location.range in
      (
        made,
        new_file-Compiles tokens wave command path text (ends path text),
        f,
        e,
        get_symbols-Compiles wave f (ends f.unit_path f.source_code)
            ∙ ap (λ s. some (f, s)) b.no_symbols,
        get_hover_answer f location ∙ ap (λ n. hover_of n f.definitions) nowhere,
        get_highlights_answer f location
            ∙ ap (λ n. highlights_of n (λ name. entry [] name f.highlights)) nowhere,
      )
