-- ===== src/Protocol/Capabilities/TextDocumentConforming.antt =====
-- The shape of value under which each of these decoders returns: every member that is there and
-- not null has the type that the protocol gives it.
use p4ls.Prelude.{refl, codes}
use p4ls.Json.{Json}
use p4ls.Json.Decode.{Returns, bind-Returns_inv, Member}
use p4ls.Protocol.Capabilities.Conforming
use p4ls.Protocol.Capabilities.Documents.{
  decode_document_highlight, decode_document_symbol, decode_formatting, decode_on_type_formatting,
  decode_range_formatting, decode_references,
}
use p4ls.Protocol.Capabilities.DocumentsConforming.{
  DocumentHighlightConforms, decode_document_highlight-Returns, decode_document_highlight-Conforms,
  DocumentSymbolConforms, decode_document_symbol-Returns, decode_document_symbol-Conforms,
  FormattingConforms, decode_formatting-Returns, decode_formatting-Conforms,
  OnTypeFormattingConforms, decode_on_type_formatting-Returns, decode_on_type_formatting-Conforms,
  RangeFormattingConforms, decode_range_formatting-Returns, decode_range_formatting-Conforms,
  ReferencesConforms, decode_references-Returns, decode_references-Conforms,
}
use p4ls.Protocol.Capabilities.Editing.{
  decode_completion, decode_hover, decode_signature_help, decode_synchronization,
}
use p4ls.Protocol.Capabilities.EditingConforming.{
  CompletionConforms, decode_completion-Returns, decode_completion-Conforms,
  SynchronizationConforms, decode_synchronization-Returns, decode_synchronization-Conforms,
}
use p4ls.Protocol.Capabilities.HelpConforming.{
  HoverConforms, decode_hover-Returns, decode_hover-Conforms, SignatureHelpConforms,
  decode_signature_help-Returns, decode_signature_help-Conforms,
}
use p4ls.Protocol.Capabilities.Navigation.{
  decode_code_action, decode_code_lens, decode_color_provider, decode_definition,
  decode_document_link, decode_implementation, decode_publish_diagnostics, decode_rename,
  decode_type_definition,
}
use p4ls.Protocol.Capabilities.NavigationConforming.{
  CodeActionConforms, decode_code_action-Returns, decode_code_action-Conforms, CodeLensConforms,
  decode_code_lens-Returns, decode_code_lens-Conforms, ColorProviderConforms,
  decode_color_provider-Returns, decode_color_provider-Conforms, DefinitionConforms,
  decode_definition-Returns, decode_definition-Conforms, DocumentLinkConforms,
  decode_document_link-Returns, decode_document_link-Conforms, ImplementationConforms,
  decode_implementation-Returns, decode_implementation-Conforms, PublishDiagnosticsConforms,
  decode_publish_diagnostics-Returns, decode_publish_diagnostics-Conforms, RenameConforms,
  decode_rename-Returns, decode_rename-Conforms, TypeDefinitionConforms,
  decode_type_definition-Returns, decode_type_definition-Conforms,
}
use p4ls.Protocol.Capabilities.TextDocument.{decode_text_document_client_capabilities}

module _ (j : Json) where
  open j use {Value}

  pub record TextDocumentClientCapabilitiesConforms (v : Value) : Type 0 where
    pub synchronization : Member j (SynchronizationConforms j) v (codes "synchronization")
    pub completion : Member j (CompletionConforms j) v (codes "completion")
    pub hover : Member j (HoverConforms j) v (codes "hover")
    pub signature_help : Member j (SignatureHelpConforms j) v (codes "signatureHelp")
    pub references : Member j (ReferencesConforms j) v (codes "references")
    pub document_highlight : Member j (DocumentHighlightConforms j) v (codes "documentHighlight")
    pub document_symbol : Member j (DocumentSymbolConforms j) v (codes "documentSymbol")
    pub formatting : Member j (FormattingConforms j) v (codes "formatting")
    pub range_formatting : Member j (RangeFormattingConforms j) v (codes "rangeFormatting")
    pub on_type_formatting : Member j (OnTypeFormattingConforms j) v (codes "onTypeFormatting")
    pub definition : Member j (DefinitionConforms j) v (codes "definition")
    pub type_definition : Member j (TypeDefinitionConforms j) v (codes "typeDefinition")
    pub implementation : Member j (ImplementationConforms j) v (codes "implementation")
    pub code_action : Member j (CodeActionConforms j) v (codes "codeAction")
    pub code_lens : Member j (CodeLensConforms j) v (codes "codeLens")
    pub document_link : Member j (DocumentLinkConforms j) v (codes "documentLink")
    pub color_provider : Member j (ColorProviderConforms j) v (codes "colorProvider")
    pub rename : Member j (RenameConforms j) v (codes "rename")
    pub publish_diagnostics : Member j (PublishDiagnosticsConforms j) v (codes "publishDiagnostics")

  pub decode_text_document_client_capabilities-Returns :
      (v : Value)
      → TextDocumentClientCapabilitiesConforms v
      → Returns (decode_text_document_client_capabilities j v)
  unfolding decode_text_document_client_capabilities
  decode_text_document_client_capabilities-Returns v c =
      let (synchronization, e0) =
        Conforming.optional-Returns j (decode_synchronization j) (decode_synchronization-Returns j)
          v _ c.synchronization in
      let (completion, e1) =
        Conforming.optional-Returns j (decode_completion j) (decode_completion-Returns j) v _
          c.completion in
      let (hover, e2) =
        Conforming.optional-Returns j (decode_hover j) (decode_hover-Returns j) v _ c.hover in
      let (signature_help, e3) =
        Conforming.optional-Returns j (decode_signature_help j) (decode_signature_help-Returns j) v
          _ c.signature_help in
      let (references, e4) =
        Conforming.optional-Returns j (decode_references j) (decode_references-Returns j) v _
          c.references in
      let (document_highlight, e5) =
        Conforming.optional-Returns j (decode_document_highlight j)
          (decode_document_highlight-Returns j) v _ c.document_highlight in
      let (document_symbol, e6) =
        Conforming.optional-Returns j (decode_document_symbol j) (decode_document_symbol-Returns j)
          v _ c.document_symbol in
      let (formatting, e7) =
        Conforming.optional-Returns j (decode_formatting j) (decode_formatting-Returns j) v _
          c.formatting in
      let (range_formatting, e8) =
        Conforming.optional-Returns j (decode_range_formatting j)
          (decode_range_formatting-Returns j) v _ c.range_formatting in
      let (on_type_formatting, e9) =
        Conforming.optional-Returns j (decode_on_type_formatting j)
          (decode_on_type_formatting-Returns j) v _ c.on_type_formatting in
      let (definition, e10) =
        Conforming.optional-Returns j (decode_definition j) (decode_definition-Returns j) v _
          c.definition in
      let (type_definition, e11) =
        Conforming.optional-Returns j (decode_type_definition j) (decode_type_definition-Returns j)
          v _ c.type_definition in
      let (implementation, e12) =
        Conforming.optional-Returns j (decode_implementation j) (decode_implementation-Returns j) v
          _ c.implementation in
      let (code_action, e13) =
        Conforming.optional-Returns j (decode_code_action j) (decode_code_action-Returns j) v _
          c.code_action in
      let (code_lens, e14) =
        Conforming.optional-Returns j (decode_code_lens j) (decode_code_lens-Returns j) v _
          c.code_lens in
      let (document_link, e15) =
        Conforming.optional-Returns j (decode_document_link j) (decode_document_link-Returns j) v _
          c.document_link in
      let (color_provider, e16) =
        Conforming.optional-Returns j (decode_color_provider j) (decode_color_provider-Returns j) v
          _ c.color_provider in
      let (rename, e17) =
        Conforming.optional-Returns j (decode_rename j) (decode_rename-Returns j) v _ c.rename in
      let (publish_diagnostics, e18) =
        Conforming.optional-Returns j (decode_publish_diagnostics j)
          (decode_publish_diagnostics-Returns j) v _ c.publish_diagnostics in
      (
        record {
          synchronization = synchronization;
          completion = completion;
          hover = hover;
          signature_help = signature_help;
          references = references;
          document_highlight = document_highlight;
          document_symbol = document_symbol;
          formatting = formatting;
          range_formatting = range_formatting;
          on_type_formatting = on_type_formatting;
          definition = definition;
          type_definition = type_definition;
          implementation = implementation;
          code_action = code_action;
          code_lens = code_lens;
          document_link = document_link;
          color_provider = color_provider;
          rename = rename;
          publish_diagnostics = publish_diagnostics;
        },
        rw (e0, e1, e2, e3, e4, e5, e6, e7, e8, e9, e10, e11, e12, e13, e14, e15, e16, e17, e18)
            refl,
      )

  pub decode_text_document_client_capabilities-Conforms :
      (v : Value)
      → Returns (decode_text_document_client_capabilities j v)
      → TextDocumentClientCapabilitiesConforms v
  unfolding decode_text_document_client_capabilities
  decode_text_document_client_capabilities-Conforms v r =
      let (a0, e0, r0) = bind-Returns_inv r in
      let (a1, e1, r1) = bind-Returns_inv r0 in
      let (a2, e2, r2) = bind-Returns_inv r1 in
      let (a3, e3, r3) = bind-Returns_inv r2 in
      let (a4, e4, r4) = bind-Returns_inv r3 in
      let (a5, e5, r5) = bind-Returns_inv r4 in
      let (a6, e6, r6) = bind-Returns_inv r5 in
      let (a7, e7, r7) = bind-Returns_inv r6 in
      let (a8, e8, r8) = bind-Returns_inv r7 in
      let (a9, e9, r9) = bind-Returns_inv r8 in
      let (a10, e10, r10) = bind-Returns_inv r9 in
      let (a11, e11, r11) = bind-Returns_inv r10 in
      let (a12, e12, r12) = bind-Returns_inv r11 in
      let (a13, e13, r13) = bind-Returns_inv r12 in
      let (a14, e14, r14) = bind-Returns_inv r13 in
      let (a15, e15, r15) = bind-Returns_inv r14 in
      let (a16, e16, r16) = bind-Returns_inv r15 in
      let (a17, e17, r17) = bind-Returns_inv r16 in
      let (a18, e18, r18) = bind-Returns_inv r17 in
      record {
        synchronization =
            Conforming.optional-Member j (decode_synchronization j)
              (decode_synchronization-Conforms j) v _ (a0, e0);
        completion =
            Conforming.optional-Member j (decode_completion j) (decode_completion-Conforms j) v _
              (a1, e1);
        hover =
            Conforming.optional-Member j (decode_hover j) (decode_hover-Conforms j) v _ (a2, e2);
        signature_help =
            Conforming.optional-Member j (decode_signature_help j)
              (decode_signature_help-Conforms j) v _ (a3, e3);
        references =
            Conforming.optional-Member j (decode_references j) (decode_references-Conforms j) v _
              (a4, e4);
        document_highlight =
            Conforming.optional-Member j (decode_document_highlight j)
              (decode_document_highlight-Conforms j) v _ (a5, e5);
        document_symbol =
            Conforming.optional-Member j (decode_document_symbol j)
              (decode_document_symbol-Conforms j) v _ (a6, e6);
        formatting =
            Conforming.optional-Member j (decode_formatting j) (decode_formatting-Conforms j) v _
              (a7, e7);
        range_formatting =
            Conforming.optional-Member j (decode_range_formatting j)
              (decode_range_formatting-Conforms j) v _ (a8, e8);
        on_type_formatting =
            Conforming.optional-Member j (decode_on_type_formatting j)
              (decode_on_type_formatting-Conforms j) v _ (a9, e9);
        definition =
            Conforming.optional-Member j (decode_definition j) (decode_definition-Conforms j) v _
              (a10, e10);
        type_definition =
            Conforming.optional-Member j (decode_type_definition j)
              (decode_type_definition-Conforms j) v _ (a11, e11);
        implementation =
            Conforming.optional-Member j (decode_implementation j)
              (decode_implementation-Conforms j) v _ (a12, e12);
        code_action =
            Conforming.optional-Member j (decode_code_action j) (decode_code_action-Conforms j) v _
              (a13, e13);
        code_lens =
            Conforming.optional-Member j (decode_code_lens j) (decode_code_lens-Conforms j) v _
              (a14, e14);
        document_link =
            Conforming.optional-Member j (decode_document_link j) (decode_document_link-Conforms j)
              v _ (a15, e15);
        color_provider =
            Conforming.optional-Member j (decode_color_provider j)
              (decode_color_provider-Conforms j) v _ (a16, e16);
        rename =
            Conforming.optional-Member j (decode_rename j) (decode_rename-Conforms j) v _
              (a17, e17);
        publish_diagnostics =
            Conforming.optional-Member j (decode_publish_diagnostics j)
              (decode_publish_diagnostics-Conforms j) v _ (a18, e18);
      }
