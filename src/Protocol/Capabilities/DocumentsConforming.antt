-- ===== src/Protocol/Capabilities/DocumentsConforming.antt =====
-- The shape of value under which each of these decoders returns: every member that is there and
-- not null has the type that the protocol gives it.
use p4ls.Prelude.{refl, codes}
use p4ls.Json.{Json}
use p4ls.Json.Decode.{Returns, bind-Returns, bind-Returns_inv, Member, bool}
use p4ls.Protocol.Capabilities.Lists.{symbol_kinds}
use p4ls.Protocol.Capabilities.Conforming
use p4ls.Protocol.Capabilities.Conforming.{
  IsBool, bool-Returns, bool-Conforms, IsIntArray, symbol_kinds-Returns, symbol_kinds-Conforms,
}
use p4ls.Protocol.Capabilities.Documents.{
  decode_references, decode_document_highlight, decode_document_symbol_kinds,
  decode_document_symbol, decode_formatting, decode_range_formatting, decode_on_type_formatting,
}

module _ (j : Json) where
  open j use {Value}

  pub record ReferencesConforms (v : Value) : Type 0 where
    pub dynamic_registration : Member j (IsBool j) v (codes "dynamicRegistration")

  pub decode_references-Returns :
      (v : Value) → ReferencesConforms v → Returns (decode_references j v)
  unfolding decode_references
  decode_references-Returns v c =
      bind-Returns
        (Conforming.optional-Returns j (bool j) (bool-Returns j) v _ c.dynamic_registration)
        λ dynamic_registration. (record { dynamic_registration = dynamic_registration }, refl)

  pub decode_references-Conforms :
      (v : Value) → Returns (decode_references j v) → ReferencesConforms v
  unfolding decode_references
  decode_references-Conforms v r =
      let (a0, e0, r0) = bind-Returns_inv r in
      record {
        dynamic_registration = Conforming.optional-Member j (bool j) (bool-Conforms j) v _ (a0, e0);
      }

  pub record DocumentHighlightConforms (v : Value) : Type 0 where
    pub dynamic_registration : Member j (IsBool j) v (codes "dynamicRegistration")

  pub decode_document_highlight-Returns :
      (v : Value) → DocumentHighlightConforms v → Returns (decode_document_highlight j v)
  unfolding decode_document_highlight
  decode_document_highlight-Returns v c =
      bind-Returns
        (Conforming.optional-Returns j (bool j) (bool-Returns j) v _ c.dynamic_registration)
        λ dynamic_registration. (record { dynamic_registration = dynamic_registration }, refl)

  pub decode_document_highlight-Conforms :
      (v : Value) → Returns (decode_document_highlight j v) → DocumentHighlightConforms v
  unfolding decode_document_highlight
  decode_document_highlight-Conforms v r =
      let (a0, e0, r0) = bind-Returns_inv r in
      record {
        dynamic_registration = Conforming.optional-Member j (bool j) (bool-Conforms j) v _ (a0, e0);
      }

  pub record DocumentSymbolKindsConforms (v : Value) : Type 0 where
    pub value_set : Member j (IsIntArray j) v (codes "valueSet")

  pub decode_document_symbol_kinds-Returns :
      (v : Value) → DocumentSymbolKindsConforms v → Returns (decode_document_symbol_kinds j v)
  unfolding decode_document_symbol_kinds
  decode_document_symbol_kinds-Returns v c =
      bind-Returns
        (Conforming.optional-Returns j (symbol_kinds j) (symbol_kinds-Returns j) v _ c.value_set)
        λ value_set. (record { value_set = value_set }, refl)

  pub decode_document_symbol_kinds-Conforms :
      (v : Value) → Returns (decode_document_symbol_kinds j v) → DocumentSymbolKindsConforms v
  unfolding decode_document_symbol_kinds
  decode_document_symbol_kinds-Conforms v r =
      let (a0, e0, r0) = bind-Returns_inv r in
      record {
        value_set =
            Conforming.optional-Member j (symbol_kinds j) (symbol_kinds-Conforms j) v _ (a0, e0);
      }

  pub record DocumentSymbolConforms (v : Value) : Type 0 where
    pub dynamic_registration : Member j (IsBool j) v (codes "dynamicRegistration")
    pub symbol_kind : Member j DocumentSymbolKindsConforms v (codes "symbolKind")

  pub decode_document_symbol-Returns :
      (v : Value) → DocumentSymbolConforms v → Returns (decode_document_symbol j v)
  unfolding decode_document_symbol
  decode_document_symbol-Returns v c =
      let (dynamic_registration, e0) =
        Conforming.optional-Returns j (bool j) (bool-Returns j) v _ c.dynamic_registration in
      let (symbol_kind, e1) =
        Conforming.optional-Returns j (decode_document_symbol_kinds j)
          (decode_document_symbol_kinds-Returns) v _ c.symbol_kind in
      (
        record { dynamic_registration = dynamic_registration; symbol_kind = symbol_kind },
        rw (e0, e1) refl,
      )

  pub decode_document_symbol-Conforms :
      (v : Value) → Returns (decode_document_symbol j v) → DocumentSymbolConforms v
  unfolding decode_document_symbol
  decode_document_symbol-Conforms v r =
      let (a0, e0, r0) = bind-Returns_inv r in
      let (a1, e1, r1) = bind-Returns_inv r0 in
      record {
        dynamic_registration = Conforming.optional-Member j (bool j) (bool-Conforms j) v _ (a0, e0);
        symbol_kind =
            Conforming.optional-Member j (decode_document_symbol_kinds j)
              (decode_document_symbol_kinds-Conforms) v _ (a1, e1);
      }

  pub record FormattingConforms (v : Value) : Type 0 where
    pub dynamic_registration : Member j (IsBool j) v (codes "dynamicRegistration")

  pub decode_formatting-Returns :
      (v : Value) → FormattingConforms v → Returns (decode_formatting j v)
  unfolding decode_formatting
  decode_formatting-Returns v c =
      bind-Returns
        (Conforming.optional-Returns j (bool j) (bool-Returns j) v _ c.dynamic_registration)
        λ dynamic_registration. (record { dynamic_registration = dynamic_registration }, refl)

  pub decode_formatting-Conforms :
      (v : Value) → Returns (decode_formatting j v) → FormattingConforms v
  unfolding decode_formatting
  decode_formatting-Conforms v r =
      let (a0, e0, r0) = bind-Returns_inv r in
      record {
        dynamic_registration = Conforming.optional-Member j (bool j) (bool-Conforms j) v _ (a0, e0);
      }

  pub record RangeFormattingConforms (v : Value) : Type 0 where
    pub dynamic_registration : Member j (IsBool j) v (codes "dynamicRegistration")

  pub decode_range_formatting-Returns :
      (v : Value) → RangeFormattingConforms v → Returns (decode_range_formatting j v)
  unfolding decode_range_formatting
  decode_range_formatting-Returns v c =
      bind-Returns
        (Conforming.optional-Returns j (bool j) (bool-Returns j) v _ c.dynamic_registration)
        λ dynamic_registration. (record { dynamic_registration = dynamic_registration }, refl)

  pub decode_range_formatting-Conforms :
      (v : Value) → Returns (decode_range_formatting j v) → RangeFormattingConforms v
  unfolding decode_range_formatting
  decode_range_formatting-Conforms v r =
      let (a0, e0, r0) = bind-Returns_inv r in
      record {
        dynamic_registration = Conforming.optional-Member j (bool j) (bool-Conforms j) v _ (a0, e0);
      }

  pub record OnTypeFormattingConforms (v : Value) : Type 0 where
    pub dynamic_registration : Member j (IsBool j) v (codes "dynamicRegistration")

  pub decode_on_type_formatting-Returns :
      (v : Value) → OnTypeFormattingConforms v → Returns (decode_on_type_formatting j v)
  unfolding decode_on_type_formatting
  decode_on_type_formatting-Returns v c =
      bind-Returns
        (Conforming.optional-Returns j (bool j) (bool-Returns j) v _ c.dynamic_registration)
        λ dynamic_registration. (record { dynamic_registration = dynamic_registration }, refl)

  pub decode_on_type_formatting-Conforms :
      (v : Value) → Returns (decode_on_type_formatting j v) → OnTypeFormattingConforms v
  unfolding decode_on_type_formatting
  decode_on_type_formatting-Conforms v r =
      let (a0, e0, r0) = bind-Returns_inv r in
      record {
        dynamic_registration = Conforming.optional-Member j (bool j) (bool-Conforms j) v _ (a0, e0);
      }
