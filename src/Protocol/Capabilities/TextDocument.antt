-- ===== src/Protocol/Capabilities/TextDocument.antt =====
-- server/lsp/protocol.h: the client's capabilities for text documents.
use p4ls.Prelude.{Option, codes}
use p4ls.Json.{Json}
use p4ls.Json.Decode.{Decode, ok, ◌>>=◌, optional}
use p4ls.Protocol.Capabilities.Documents.{
  DocumentHighlight, decode_document_highlight, DocumentSymbol, decode_document_symbol, Formatting,
  decode_formatting, OnTypeFormatting, decode_on_type_formatting, RangeFormatting,
  decode_range_formatting, References, decode_references,
}
use p4ls.Protocol.Capabilities.Editing.{
  Completion, decode_completion, Hover, decode_hover, SignatureHelp, decode_signature_help,
  Synchronization, decode_synchronization,
}
use p4ls.Protocol.Capabilities.Navigation.{
  CodeAction, decode_code_action, CodeLens, decode_code_lens, ColorProvider, decode_color_provider,
  Definition, decode_definition, DocumentLink, decode_document_link, Implementation,
  decode_implementation, PublishDiagnostics, decode_publish_diagnostics, Rename, decode_rename,
  TypeDefinition, decode_type_definition,
}

pub record TextDocumentClientCapabilities : Type 0 where
  pub synchronization : Option Synchronization
  pub completion : Option Completion
  pub hover : Option Hover
  pub signature_help : Option SignatureHelp
  pub references : Option References
  pub document_highlight : Option DocumentHighlight
  pub document_symbol : Option DocumentSymbol
  pub formatting : Option Formatting
  pub range_formatting : Option RangeFormatting
  pub on_type_formatting : Option OnTypeFormatting
  pub definition : Option Definition
  pub type_definition : Option TypeDefinition
  pub implementation : Option Implementation
  pub code_action : Option CodeAction
  pub code_lens : Option CodeLens
  pub document_link : Option DocumentLink
  pub color_provider : Option ColorProvider
  pub rename : Option Rename
  pub publish_diagnostics : Option PublishDiagnostics

module _ (j : Json) where
  open j use {Value}

  unfoldable pub decode_text_document_client_capabilities :
      Value → Decode TextDocumentClientCapabilities
  decode_text_document_client_capabilities v = do
    synchronization ← optional j (decode_synchronization j) v (codes "synchronization")
    completion ← optional j (decode_completion j) v (codes "completion")
    hover ← optional j (decode_hover j) v (codes "hover")
    signature_help ← optional j (decode_signature_help j) v (codes "signatureHelp")
    references ← optional j (decode_references j) v (codes "references")
    document_highlight ← optional j (decode_document_highlight j) v (codes "documentHighlight")
    document_symbol ← optional j (decode_document_symbol j) v (codes "documentSymbol")
    formatting ← optional j (decode_formatting j) v (codes "formatting")
    range_formatting ← optional j (decode_range_formatting j) v (codes "rangeFormatting")
    on_type_formatting ← optional j (decode_on_type_formatting j) v (codes "onTypeFormatting")
    definition ← optional j (decode_definition j) v (codes "definition")
    type_definition ← optional j (decode_type_definition j) v (codes "typeDefinition")
    implementation ← optional j (decode_implementation j) v (codes "implementation")
    code_action ← optional j (decode_code_action j) v (codes "codeAction")
    code_lens ← optional j (decode_code_lens j) v (codes "codeLens")
    document_link ← optional j (decode_document_link j) v (codes "documentLink")
    color_provider ← optional j (decode_color_provider j) v (codes "colorProvider")
    rename ← optional j (decode_rename j) v (codes "rename")
    publish_diagnostics ← optional j (decode_publish_diagnostics j) v (codes "publishDiagnostics")
    ok (record {
      synchronization = synchronization;
      completion = completion;
      hover = hover;
      signature_help = signature_help;
      references = references;
      document_highlight = document_highlight;
      document_symbol = document_symbol;
      formatting = formatting;
      range_formatting = range_formatting;
      on_type_formatting = on_type_formatting;
      definition = definition;
      type_definition = type_definition;
      implementation = implementation;
      code_action = code_action;
      code_lens = code_lens;
      document_link = document_link;
      color_provider = color_provider;
      rename = rename;
      publish_diagnostics = publish_diagnostics;
    })
