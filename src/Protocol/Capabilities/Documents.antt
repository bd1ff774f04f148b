-- ===== src/Protocol/Capabilities/Documents.antt =====
-- server/lsp/protocol.h: what the client supports of a document's symbols and formatting.
use p4ls.Prelude.{Option, Bool, List, codes}
use p4ls.Json.{Json}
use p4ls.Json.Decode.{Decode, ok, ◌>>=◌, optional, bool}
use p4ls.Protocol.Kinds.Symbol.{SymbolKind}
use p4ls.Protocol.Capabilities.Lists.{symbol_kinds}

pub record References : Type 0 where
  pub dynamic_registration : Option Bool

pub record DocumentHighlight : Type 0 where
  pub dynamic_registration : Option Bool

pub record DocumentSymbolKinds : Type 0 where
  pub value_set : Option (List SymbolKind)

pub record DocumentSymbol : Type 0 where
  pub dynamic_registration : Option Bool
  pub symbol_kind : Option DocumentSymbolKinds

pub record Formatting : Type 0 where
  pub dynamic_registration : Option Bool

pub record RangeFormatting : Type 0 where
  pub dynamic_registration : Option Bool

pub record OnTypeFormatting : Type 0 where
  pub dynamic_registration : Option Bool

module _ (j : Json) where
  open j use {Value}

  unfoldable pub decode_references : Value → Decode References
  decode_references v = do
    dynamic_registration ← optional j (bool j) v (codes "dynamicRegistration")
    ok (record { dynamic_registration = dynamic_registration })

  unfoldable pub decode_document_highlight : Value → Decode DocumentHighlight
  decode_document_highlight v = do
    dynamic_registration ← optional j (bool j) v (codes "dynamicRegistration")
    ok (record { dynamic_registration = dynamic_registration })

  unfoldable pub decode_document_symbol_kinds : Value → Decode DocumentSymbolKinds
  decode_document_symbol_kinds v = do
    value_set ← optional j (symbol_kinds j) v (codes "valueSet")
    ok (record { value_set = value_set })

  unfoldable pub decode_document_symbol : Value → Decode DocumentSymbol
  decode_document_symbol v = do
    dynamic_registration ← optional j (bool j) v (codes "dynamicRegistration")
    symbol_kind ← optional j decode_document_symbol_kinds v (codes "symbolKind")
    ok (record { dynamic_registration = dynamic_registration; symbol_kind = symbol_kind })

  unfoldable pub decode_formatting : Value → Decode Formatting
  decode_formatting v = do
    dynamic_registration ← optional j (bool j) v (codes "dynamicRegistration")
    ok (record { dynamic_registration = dynamic_registration })

  unfoldable pub decode_range_formatting : Value → Decode RangeFormatting
  decode_range_formatting v = do
    dynamic_registration ← optional j (bool j) v (codes "dynamicRegistration")
    ok (record { dynamic_registration = dynamic_registration })

  unfoldable pub decode_on_type_formatting : Value → Decode OnTypeFormatting
  decode_on_type_formatting v = do
    dynamic_registration ← optional j (bool j) v (codes "dynamicRegistration")
    ok (record { dynamic_registration = dynamic_registration })
