-- ===== src/Protocol/Capabilities/Lists.antt =====
-- server/lsp/protocol.h: the loops over arrays of kinds.
use p4ls.Prelude.{List}
use p4ls.Json.{Json}
use p4ls.Json.Decode.{Decode, ok, ◌>>=◌, string, int, array, map_decode}
use p4ls.Protocol.Kinds.{MarkupKind, convert_string_to_markup_kind}
use p4ls.Protocol.Kinds.CompletionItem.{CompletionItemKind, convert_int_to_completion_item_kind}
use p4ls.Protocol.Kinds.Symbol.{SymbolKind, convert_int_to_symbol_kind}

module _ (j : Json) where
  open j use {Value}

  unfoldable pub markup_kinds : Value → Decode (List MarkupKind)
  markup_kinds v = do
    values ← array j v
    map_decode (λ e. do s ← string j e; ok (convert_string_to_markup_kind s)) values

  unfoldable pub completion_item_kinds : Value → Decode (List CompletionItemKind)
  completion_item_kinds v = do
    values ← array j v
    map_decode (λ e. do n ← int j e; ok (convert_int_to_completion_item_kind n)) values

  unfoldable pub symbol_kinds : Value → Decode (List SymbolKind)
  symbol_kinds v = do
    values ← array j v
    map_decode (λ e. do n ← int j e; ok (convert_int_to_symbol_kind n)) values
