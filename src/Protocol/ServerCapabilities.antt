-- ===== src/Protocol/ServerCapabilities.antt =====
-- server/lsp/protocol.h and protocol.cpp, `Server_capabilities`: what the server offers, and how it
-- is written on `initialize`. A member is written only where its value is there.
use p4ls.Prelude.{Bool, Option, none, some, List, [], ◌∷◌, map, Bytes, codes, c_str}
use p4ls.Prelude.Int.{pos}
use p4ls.Json.{Json}
use p4ls.Protocol.Kinds.{TextDocumentSyncKind, sync_to_int}

pub record SaveOptions : Type 0 where
  pub include_text : Option Bool

pub record TextDocumentSyncOptions : Type 0 where
  pub open_close : Option Bool
  pub will_save : Option Bool
  pub will_save_wait_until : Option Bool
  pub change : Option TextDocumentSyncKind
  pub save : Option SaveOptions

pub record CompletionOptions : Type 0 where
  pub resolve_provider : Option Bool
  pub trigger_characters : Option Bytes

pub record SignatureHelpOptions : Type 0 where
  pub trigger_characters : Option Bytes

pub record CodeLensOptions : Type 0 where
  pub resolve_provider : Option Bool

pub record OnTypeFormattingOptions : Type 0 where
  pub first_trigger_character : Bytes
  pub more_trigger_character : Option Bytes

pub record DocumentLinkOptions : Type 0 where
  pub resolve_provider : Option Bool

pub data ColorProviderOptions : Type 0 where
  color_provider_options : ColorProviderOptions

pub record ExecuteCommandOptions : Type 0 where
  pub commands : List Bytes

pub record WorkspaceFoldersOptions : Type 0 where
  pub supported : Option Bool
  pub change_notifications : Option Bytes

pub record WorkspaceOptions : Type 0 where
  pub workspace_folders : Option WorkspaceFoldersOptions

pub record ServerCapabilities : Type 0 where
  pub workspace : Option WorkspaceOptions
  pub text_document_sync : Option TextDocumentSyncOptions
  pub completion_provider : Option CompletionOptions
  pub signature_help_provider : Option SignatureHelpOptions
  pub code_lens_provider : Option CodeLensOptions
  pub document_on_type_formatting_provider : Option OnTypeFormattingOptions
  pub document_link_provider : Option DocumentLinkOptions
  pub color_provider : Option ColorProviderOptions
  pub execute_command_provider : Option ExecuteCommandOptions
  pub hover_provider : Option Bool
  pub definition_provider : Option Bool
  pub type_definition_provider : Option Bool
  pub implementation_provider : Option Bool
  pub references_provider : Option Bool
  pub document_highlight_provider : Option Bool
  pub document_symbol_provider : Option Bool
  pub workspace_symbol_provider : Option Bool
  pub code_action_provider : Option Bool
  pub document_formatting_provider : Option Bool
  pub document_range_formatting_provider : Option Bool
  pub rename_provider : Option Bool

-- `if (field) { result.AddMember(name, ..., allocator); }`
abbrev pub add {ℓ κ} :
    {A : Type ℓ} {V : Type κ} → Bytes → (A → V) → Option A → List (Bytes × V) → List (Bytes × V)
add name f none rest = rest
add name f (some a) rest = (name, f a) ∷ rest

module _ (j : Json) where
  open j use {Value, of_bool, of_int, of_string, of_array, of_object}

  abbrev text : Bytes → Value
  text s = of_string (c_str s)

  unfoldable pub save_options_json : SaveOptions → Value
  save_options_json o = of_object (add (codes "includeText") of_bool o.include_text [])

  unfoldable pub text_document_sync_options_json : TextDocumentSyncOptions → Value
  text_document_sync_options_json o = of_object (
      add (codes "openClose") of_bool o.open_close (
        add (codes "willSave") of_bool o.will_save (
          add (codes "willSaveWaitUntil") of_bool o.will_save_wait_until (
            add (codes "change") (λ k. of_int (pos (sync_to_int k))) o.change
              (add (codes "save") save_options_json o.save [])))))

  unfoldable pub completion_options_json : CompletionOptions → Value
  completion_options_json o = of_object (
      add (codes "resolveProvider") of_bool o.resolve_provider
        (add (codes "triggerCharacters") text o.trigger_characters []))

  unfoldable pub signature_help_options_json : SignatureHelpOptions → Value
  signature_help_options_json o =
      of_object (add (codes "triggerCharacters") text o.trigger_characters [])

  unfoldable pub code_lens_options_json : CodeLensOptions → Value
  code_lens_options_json o = of_object (add (codes "resolveProvider") of_bool o.resolve_provider [])

  unfoldable pub on_type_formatting_options_json : OnTypeFormattingOptions → Value
  on_type_formatting_options_json o = of_object (
      (codes "firstTriggerCharacter", text o.first_trigger_character)
      ∷ add (codes "moreTriggerCharacter") text o.more_trigger_character [])

  unfoldable pub document_link_options_json : DocumentLinkOptions → Value
  document_link_options_json o =
      of_object (add (codes "resolveProvider") of_bool o.resolve_provider [])

  unfoldable pub color_provider_options_json : ColorProviderOptions → Value
  color_provider_options_json o = of_object []

  unfoldable pub execute_command_options_json : ExecuteCommandOptions → Value
  execute_command_options_json o =
      of_object ((codes "commands", of_array (map text o.commands)) ∷ [])

  unfoldable pub workspace_folders_options_json : WorkspaceFoldersOptions → Value
  workspace_folders_options_json o = of_object (
      add (codes "supported") of_bool o.supported
        (add (codes "changeNotifications") text o.change_notifications []))

  unfoldable pub workspace_options_json : WorkspaceOptions → Value
  workspace_options_json o =
      of_object
        (add (codes "workspaceFolders") workspace_folders_options_json o.workspace_folders [])

  unfoldable pub server_capabilities_json : ServerCapabilities → Value
  server_capabilities_json o = of_object (
      add (codes "workspace") workspace_options_json o.workspace (
        add (codes "textDocumentSync") text_document_sync_options_json o.text_document_sync (
          add (codes "completionProvider") completion_options_json o.completion_provider (
            add (codes "signatureHelpProvider") signature_help_options_json
              o.signature_help_provider
              (add (codes "codeLensProvider") code_lens_options_json o.code_lens_provider (
                add (codes "documentOnTypeFormattingProvider") on_type_formatting_options_json
                  o.document_on_type_formatting_provider
                  (add (codes "documentLinkProvider") document_link_options_json
                    o.document_link_provider
                    (add (codes "colorProvider") color_provider_options_json o.color_provider (
                      add (codes "executeCommandProvider") execute_command_options_json
                        o.execute_command_provider
                        (add (codes "hoverProvider") of_bool o.hover_provider (
                          add (codes "definitionProvider") of_bool o.definition_provider (
                            add (codes "typeDefinitionProvider") of_bool o.type_definition_provider
                              (add (codes "implementationProvider") of_bool
                                o.implementation_provider
                                (add (codes "referencesProvider") of_bool o.references_provider (
                                  add (codes "documentHighlightProvider") of_bool
                                    o.document_highlight_provider
                                    (add (codes "documentSymbolProvider") of_bool
                                      o.document_symbol_provider
                                      (add (codes "workspaceSymbolProvider") of_bool
                                        o.workspace_symbol_provider
                                        (add (codes "codeActionProvider") of_bool
                                          o.code_action_provider
                                          (add (codes "documentFormattingProvider") of_bool
                                            o.document_formatting_provider
                                            (add (codes "documentRangeFormattingProvider") of_bool
                                              o.document_range_formatting_provider
                                              (add (codes "renameProvider") of_bool
                                                o.rename_provider [])))))))))))))))))))))
