-- ===== src/Protocol/Encode.antt =====
-- server/lsp/protocol.h and server/p4l/info.h, `get_json`: what the server writes.
use p4ls.Prelude.{Bool, false, Option, none, some, [], ◌∷◌, Bytes, codes, c_str}
use p4ls.Prelude.Int.{pos}
use p4ls.Json.{Json}
use p4ls.Info.{Position}
use p4ls.Protocol.Range.{Range, Location}
use p4ls.Protocol.Kinds.{
  DocumentHighlightKind, highlight_to_int, MarkupKind, convert_markup_kind_to_string,
}
use p4ls.Protocol.Kinds.Symbol.{SymbolKind, to_int}

pub record SymbolInformation : Type 0 where
  pub name : Bytes
  pub kind : SymbolKind
  pub deprecated : Bool
  pub location : Location
  pub container_name : Option Bytes

-- The constructor of `Symbol_information`.
abbrev pub new_symbol_information : Bytes → SymbolKind → Location → Option Bytes → SymbolInformation
new_symbol_information name kind location container = record {
  name = name;
  kind = kind;
  deprecated = false;
  location = location;
  container_name = container;
}

pub record TextDocumentHighlight : Type 0 where
  pub range : Range
  pub kind : DocumentHighlightKind

pub record MarkupContent : Type 0 where
  pub kind : MarkupKind
  pub value : Bytes

module _ (j : Json) where
  open j use {Value, of_bool, of_int, of_string, of_object}

  unfoldable pub position_json : Position → Value
  position_json p =
      of_object
        ((codes "line", of_int (pos p.line)) ∷ (codes "character", of_int (pos p.character)) ∷ [])

  unfoldable pub range_json : Range → Value
  range_json r =
      of_object
        ((codes "start", position_json r.start) ∷ (codes "end", position_json r.finish) ∷ [])

  unfoldable pub location_json : Location → Value
  location_json l =
      of_object ((codes "uri", of_string (c_str l.uri)) ∷ (codes "range", range_json l.range) ∷ [])

  unfoldable pub symbol_json : SymbolInformation → Value
  symbol_json s = of_object (
      (codes "name", of_string (c_str s.name))
      ∷ (codes "kind", of_int (pos (to_int s.kind)))
      ∷ (codes "deprecated", of_bool s.deprecated)
      ∷ (codes "location", location_json s.location)
      ∷ elim s.container_name [
        | none ↦ []
        | some container ↦ (codes "containerName", of_string (c_str container)) ∷ []
      ])

  unfoldable pub highlight_json : TextDocumentHighlight → Value
  highlight_json h = of_object (
      (codes "range", range_json h.range)
      ∷ (codes "kind", of_int (pos (highlight_to_int h.kind)))
      ∷ [])

  unfoldable pub markup_json : MarkupContent → Value
  markup_json m = of_object (
      (codes "kind", of_string (convert_markup_kind_to_string m.kind))
      ∷ (codes "value", of_string (c_str m.value))
      ∷ [])
