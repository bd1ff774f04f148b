-- ===== src/P4Unit/File/Queries.antt =====
-- What the queries of a document answer, and that they change no answer.
use mathlib.Core.Path.{fun_ext}
use p4ls.Prelude.{
  ◌≡◌, refl, sym, ◌∙◌, ap, ◌⊎◌, inl, inr, Option, none, some, List, [], Bytes, lookup,
  lookup-emplace, equal_iff, Option-cases, arith,
}
use p4ls.Protocol.Range.{Location}
use p4ls.Protocol.Encode.{TextDocumentHighlight}
use p4ls.P4Unit.File.{P4File, get_or_insert, first_at, get_hover, get_highlights}

module _ {ℓ} {V : Type ℓ} (empty : V) where
  -- What `m[k]` gives.
  abbrev pub entry : Bytes → List (Bytes × V) → V
  entry k m = (get_or_insert empty k m).0

  entry-insert :
      (k j : Bytes) (m : List (Bytes × V)) → entry j (get_or_insert empty k m).1 ≡ entry j m
  unfolding get_or_insert
  entry-insert k j m = ground (arith, lookup-emplace k j empty m, equal_iff k j)

-- The name at a place of a document, if the tables have one.
abbrev pub name_at : P4File → Location → Option Bytes
name_at f location = first_at location.range (entry [] location.uri f.locations)

abbrev pub hover_of : Option Bytes → List (Bytes × Bytes) → Option Bytes
hover_of none definitions = none
hover_of (some name) definitions = lookup name definitions

abbrev pub highlights_of :
    Option Bytes → (Bytes → List TextDocumentHighlight) → Option (List TextDocumentHighlight)
highlights_of none table = none
highlights_of (some name) table = some (table name)

pub get_hover_answer :
    (f : P4File) (location : Location)
    → (get_hover f location).1 ≡ hover_of (name_at f location) f.definitions
unfolding get_hover
get_hover_answer f location = elim (Option-cases (name_at f location)) [
  | inl e ↦ rw (e, get_hover)
  | inr (name, e) ↦ rw (e, get_hover)
]

pub get_highlights_answer :
    (f : P4File) (location : Location)
    → (get_highlights f location).1
      ≡ highlights_of (name_at f location) (λ name. entry [] name f.highlights)
unfolding get_highlights
get_highlights_answer f location = elim (Option-cases (name_at f location)) [
  | inl e ↦ rw (e, get_highlights)
  | inr (name, e) ↦ rw (e, get_highlights)
]

-- Two documents that answer every query alike.
pub record SameAnswers (f g : P4File) : Type 0 where
  pub hover : (l : Location) → (get_hover f l).1 ≡ (get_hover g l).1
  pub highlights : (l : Location) → (get_highlights f l).1 ≡ (get_highlights g l).1
  pub symbols : f.symbols ≡ g.symbols
  pub text : f.source_code ≡ g.source_code

same_tables :
    (f g : P4File)
    → ((k : Bytes) → entry [] k f.locations ≡ entry [] k g.locations)
    → ((k : Bytes) → entry [] k f.highlights ≡ entry [] k g.highlights)
    → f.definitions ≡ g.definitions
    → f.symbols ≡ g.symbols
    → f.source_code ≡ g.source_code
    → SameAnswers f g
same_tables f g ls hs d s t = record {
  hover = λ l.
      get_hover_answer f l
      ∙ ap (λ es. hover_of (first_at l.range es) f.definitions) (ls l.uri)
      ∙ ap (hover_of (name_at g l)) d
      ∙ sym (get_hover_answer g l);
  highlights = λ l.
      get_highlights_answer f l
      ∙ ap (λ es. highlights_of (first_at l.range es) (λ name. entry [] name f.highlights))
          (ls l.uri)
      ∙ ap (highlights_of (name_at g l)) (fun_ext hs)
      ∙ sym (get_highlights_answer g l);
  symbols = s;
  text = t;
}

get_highlights-highlights :
    (f : P4File) (location : Location)
    → ((get_highlights f location).0.highlights ≡ f.highlights)
      ⊎ ((name : Bytes) × ((get_highlights f location).0.highlights
            ≡ (get_or_insert [] name f.highlights).1))
unfolding get_highlights
get_highlights-highlights f location = elim (Option-cases (name_at f location)) [
  | inl e ↦ inl (rw (e, get_highlights))
  | inr (name, e) ↦ inr (name, rw (e, get_highlights))
]

pub hover_keeps_locations :
    (f : P4File) (location : Location) (k : Bytes)
    → entry [] k (get_hover f location).0.locations ≡ entry [] k f.locations
unfolding get_hover
hover_keeps_locations f location k = entry-insert [] location.uri k f.locations

pub highlights_keep_locations :
    (f : P4File) (location : Location) (k : Bytes)
    → entry [] k (get_highlights f location).0.locations ≡ entry [] k f.locations
unfolding get_highlights
highlights_keep_locations f location k = ground (arith, entry-insert [] location.uri k f.locations)

get_highlights-tables :
    (f : P4File) (location : Location) → SameAnswers (get_highlights f location).0 f
unfolding get_highlights
get_highlights-tables f location =
    same_tables (get_highlights f location).0 f (highlights_keep_locations f location)
      (λ k. elim (get_highlights-highlights f location) [
        | inl e ↦ ap (entry [] k) e
        | inr (name, e) ↦ ap (entry [] k) e ∙ entry-insert [] name k f.highlights
      ])
      (ground arith) (ground arith) (ground arith)

-- A query makes entries in the tables, and yet changes no answer to any query.
pub queries_change_no_answer :
    (f : P4File) (location : Location)
    → SameAnswers (get_hover f location).0 f × SameAnswers (get_highlights f location).0 f
unfolding get_hover
queries_change_no_answer f location = (
  same_tables (get_hover f location).0 f (hover_keeps_locations f location) (λ k. refl) refl refl
      refl,
  get_highlights-tables f location,
)
