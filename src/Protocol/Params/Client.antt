-- ===== src/Protocol/Params/Client.antt =====
-- What a client writes, by the text of the protocol, and that the server reads the same back.
-- Every number that a client writes is below 2 ^ 31.
pub mod Members
use p4ls.Prelude.{
  lookup, ℕ, ◌<◌, ◌^◌, ◌≡◌, refl, is_some, Option, none, some, List, [], ◌∷◌, ◌++◌, map, Bytes,
  codes, All, count, c_str_lem, equal, arith,
}
use mathlib.Core.Option
use p4ls.Prelude.Int.{pos}
use p4ls.Json.{Json, IsJson}
use p4ls.Json.Decode.{
  Decode, ok, refused, has_member, find, member, string, int, array, map_decode, ◌>>=◌, asserted,
}
use p4ls.Info.{Position}
use p4ls.Protocol.Range.{Range}
use p4ls.Protocol.Uri.{set_from_uri-scheme}
use p4ls.Protocol.Params.{
  ParamsTextDocumentPosition, to_unsigned, new_position, set_position, new_range, required,
  if_found, set_versioned_text_document_identifier, set_text_document_identifier,
  set_text_document_position, set_content_change, set_did_change, set_did_open, document,
  set_text_document_item,
}
use p4ls.P4Unit.Edit.{TextDocumentContentChangeEvent}
use p4ls.Protocol.Params.Client.Members.{
  Small, IfSome, to_unsigned-Small, has_member_lem, member_lem, int_lem, string_lem, required_lem,
  find_lem, new_range-write, write_range, SmallRange,
}

module _ (j : Json) (laws : IsJson j) where
  open j use {Value, of_object, of_int, of_string, of_array}

  if_found_lem {ℓ} :
      {A : Type ℓ} (f : Value → Decode A) (m : List (Bytes × Value)) (k : Bytes)
      → if_found j f (of_object m) k
        ≡ elim (lookup k m) [ none ↦ ok none | some x ↦ (do a ← f x; ok (some a)) ]
  unfolding if_found
  if_found_lem f m k = rw (find_lem j laws m k)

  abbrev write_range_member : Option Range → List (Bytes × Value)
  write_range_member none = []
  write_range_member (some r) = (codes "range", write_range j laws r) ∷ []

  abbrev write_length_member : Option ℕ → List (Bytes × Value)
  write_length_member none = []
  write_length_member (some n) = (codes "rangeLength", of_int (pos n)) ∷ []

  abbrev pub write_change : TextDocumentContentChangeEvent → Value
  write_change e = of_object (
      (codes "text", of_string e.text)
      ∷ (write_range_member e.range ++ write_length_member e.range_length))

  set_content_change-members :
      (text : Bytes) (range : Option Range) (range_length : Option ℕ)
      → count 0 text ≡ 0
      → IfSome (SmallRange j laws) range
      → IfSome Small range_length
      → set_content_change j (
          of_object (
            (codes "text", of_string text)
            ∷ (write_range_member range ++ write_length_member range_length)))
        ≡ ok (record { text = text; range = range; range_length = range_length })
  unfolding set_content_change lookup equal
  set_content_change-members text none none t r l =
      simp (required_lem j laws, string_lem j laws, if_found_lem, t)
  set_content_change-members text none (some n) t r l = simp (
    required_lem j laws,
    string_lem j laws,
    if_found_lem,
    int_lem j laws,
    to_unsigned-Small,
    t,
    l,
  )
  set_content_change-members text (some g) none t r l =
      simp (required_lem j laws, string_lem j laws, if_found_lem, new_range-write j laws g r, t)
  set_content_change-members text (some g) (some n) t r l = simp (
    required_lem j laws,
    string_lem j laws,
    if_found_lem,
    new_range-write j laws g r,
    int_lem j laws,
    to_unsigned-Small,
    t,
    l,
  )

  -- What a client can write in a change: numbers below 2 ^ 31 and a text with no NUL.
  pub record Writable (e : TextDocumentContentChangeEvent) : Type 0 where
    pub text : count 0 e.text ≡ 0
    pub range : IfSome (SmallRange j laws) e.range
    pub range_length : IfSome Small e.range_length

  changes-write :
      (es : List TextDocumentContentChangeEvent)
      → All Writable es
      → map_decode (set_content_change j) (map write_change es) ≡ ok es
  changes-write [] h = refl
  changes-write (e ∷ es) (w, h) =
      rw (set_content_change-members e.text e.range e.range_length w.text w.range w.range_length)
        (rw (changes-write es h))

  abbrev write_version : Option ℕ → List (Bytes × Value)
  write_version none = []
  write_version (some n) = (codes "version", of_int (pos n)) ∷ []

  versioned-write :
      (path : Bytes) (version : Option ℕ)
      → count 0 path ≡ 0
      → IfSome Small version
      → set_versioned_text_document_identifier j
          (of_object ((codes "uri", of_string (codes "file://" ++ path)) ∷ write_version version))
        ≡ ok (record { uri = path; version = Option.map pos version })
  unfolding set_versioned_text_document_identifier set_text_document_identifier lookup equal
  versioned-write path none c h = simp (
    required_lem j laws,
    string_lem j laws,
    if_found_lem,
    set_from_uri-scheme (codes "file") path refl,
    c,
  )
  versioned-write path (some n) c h = simp (
    required_lem j laws,
    string_lem j laws,
    if_found_lem,
    int_lem j laws,
    set_from_uri-scheme (codes "file") path refl,
    c,
    h,
  )

  abbrev pub write_did_change : Bytes → Option ℕ → List TextDocumentContentChangeEvent → Value
  write_did_change path version es = of_object (
      (
        codes "textDocument",
        of_object ((codes "uri", of_string (codes "file://" ++ path)) ∷ write_version version),
      )
      ∷ (codes "contentChanges", of_array (map write_change es))
      ∷ [])

  array_lem : (vs : List Value) → array j (of_array vs) ≡ ok vs
  unfolding array
  array_lem vs = rw (laws.get-of_array vs)

  -- The changes of a document, with numbers below 2 ^ 31 and texts with no NUL, are read as the
  -- client meant them, each with its range, its length and its text, in their order.
  pub set_did_change-write :
      (path : Bytes) (version : Option ℕ) (es : List TextDocumentContentChangeEvent)
      → count 0 path ≡ 0
      → IfSome Small version
      → All Writable es
      → set_did_change j (write_did_change path version es)
        ≡ ok (record {
          text_document = record { uri = path; version = Option.map pos version };
          content_changes = es;
        })
  unfolding set_did_change lookup equal
  set_did_change-write path version es c v h =
      simp (required_lem j laws, versioned-write path version c v, array_lem, changes-write es h)

  -- A document is opened with the path, the language, the version and the text that the client
  -- stated, where the version is below 2 ^ 31 and the texts hold no NUL.
  pub set_did_open-write :
      (path language text : Bytes) (version : ℕ)
      → count 0 path ≡ 0
      → count 0 language ≡ 0
      → count 0 text ≡ 0
      → Small version
      → set_did_open j (
          of_object (
            (
              codes "textDocument",
              of_object (
                  (codes "uri", of_string (codes "file://" ++ path))
                  ∷ (codes "languageId", of_string language)
                  ∷ (codes "version", of_int (pos version))
                  ∷ (codes "text", of_string text)
                  ∷ []),
            )
            ∷ []))
        ≡ ok (record { uri = path; language_id = language; version = pos version; text = text })
  unfolding set_did_open document set_text_document_item lookup equal
  set_did_open-write path language text version p l t v = simp (
    has_member_lem j laws,
    member_lem j laws,
    string_lem j laws,
    int_lem j laws,
    set_from_uri-scheme (codes "file") path refl,
    p,
    l,
    t,
    v,
  )
