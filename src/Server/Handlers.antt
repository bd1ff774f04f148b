-- ===== src/Server/Handlers.antt =====
-- server/lsp/lsp_server.cpp, the `on_...` methods, and `register_protocol_handlers` of dispatcher.cpp.
-- Logging is not modelled. The methods whose parameters are not read take none.
pub mod Events
pub mod Documents
pub mod Answers
use p4ls.Prelude.{
  ◌≡◌, Bool, true, Option, none, some, List, [], ◌∷◌, ◌++◌, map, Bytes, codes, equal, lookup,
  assign, emplace, if◌then◌else◌,
}
use p4ls.Json.{Json}
use p4ls.Json.Decode.{Decode, Decode, ok, refused, fault}
use p4ls.Protocol.Range.{Location}
use p4ls.Protocol.Kinds.{markdown}
use p4ls.Protocol.Params.{
  TextDocumentItem, ParamsTextDocumentPosition, ParamsDidChange, ParamsDidSave, ParamsInitialize,
  set_did_change, set_did_open, set_did_save, set_document_symbol, set_initialize,
  set_text_document_position,
}
use p4ls.Protocol.Encode.{SymbolInformation, highlight_json, symbol_json, markup_json}
use p4ls.Protocol.ServerCapabilities.{server_capabilities_json}
use p4ls.P4Unit.File.{P4File, new_file, change_source_code, get_symbols, get_hover, get_highlights}
use p4ls.Dispatcher.{
  Action, Handler, Dispatcher, register_handler, reply, reply_error, registered, method_not_found,
}
use p4ls.Protocol.Params.Ignored.{
  set_exit, set_shutdown, set_code_action, set_code_lens, set_code_lens_resolve, set_completion,
  set_did_close, set_formatting, set_type_formatting, set_range_formatting, set_rename,
  set_switch_source_header, set_did_change_configuration, set_did_change_watched_files,
  set_execute_command,
}
use p4ls.Server.{Server}
use p4ls.Server.Stubs.{
  on_shutdown, on_code_lens, on_code_lens_resolve, on_completion, on_formatting, on_type_formatting,
  on_range_formatting, on_rename, on_definition, on_implementation, on_signature_help,
  on_type_definition, on_code_action, on_did_close, on_switch_source_header,
  on_did_change_configuration, on_did_change_watched_files, on_execute_command,
}
use p4ls.Server.Commands.{Environment, find_command_for_path}

-- Those of the symbols that lie in the document asked for.
unfoldable pub symbols_of : Bytes → List SymbolInformation → List SymbolInformation
symbols_of path [] = []
symbols_of path (s ∷ ss) =
    let rest = symbols_of path ss in if equal s.location.uri path then s ∷ rest else rest

-- The place that a position in a document stands for: an empty range.
unfoldable pub place_of : ParamsTextDocumentPosition → Location
place_of params = record {
  uri = params.text_document;
  range = record { start = params.position; finish = params.position };
}

module _ (j : Json) (env : Environment j) where
  open j use {Value, null, of_array, of_object}
  open env use {tokens, wave}

  unfoldable pub on_exit : Unit {0} → Action Server
  on_exit _ t = some (record t { object = record t.object { is_done = true } })

  unfoldable pub on_initialize : ParamsInitialize → Action Server
  on_initialize _ t =
      reply j Server
        (of_object ((codes "capabilities", server_capabilities_json j t.object.capabilities) ∷ []))
        t

  unfoldable pub on_did_change : ParamsDidChange → Action Server
  on_did_change params t = elim (lookup params.text_document.uri t.object.files) [
    | none ↦ some t
    | some file ↦ some (record t {
      object = record t.object {
        files =
            assign params.text_document.uri (change_source_code file params.content_changes)
              t.object.files;
      };
    })
  ]

  -- `emplace`: a document that is known already stays as it is.
  unfoldable pub on_did_open : TextDocumentItem → Action Server
  on_did_open item t = elim (find_command_for_path j env item.uri t.object.commands) [
    | fault ↦ none
    | refused ↦ none
    | ok found ↦ elim (new_file tokens wave found.0 item.uri item.text) [
      | none ↦ none
      | some file ↦ some (record t {
        object = record t.object {
          files = emplace item.uri file t.object.files;
          commands = found.1;
        };
      })
    ]
  ]

  unfoldable pub on_did_save : ParamsDidSave → Action Server
  on_did_save _ t = some t

  unfoldable pub on_document_highlight : ParamsTextDocumentPosition → Action Server
  on_document_highlight params t = elim (lookup params.text_document t.object.files) [
    | none ↦ reply j Server null t
    | some file ↦
        let asked = get_highlights file (place_of params) in
        let t' = record t {
          object = record t.object { files = assign params.text_document asked.0 t.object.files };
        } in
        elim (asked.1) [
          | none ↦ reply j Server null t'
          | some highlights ↦ reply j Server (of_array (map (highlight_json j) highlights)) t'
        ]
  ]

  unfoldable pub on_document_symbol : Bytes → Action Server
  on_document_symbol path t = elim (lookup path t.object.files) [
    | none ↦ reply j Server (of_array []) t
    | some file ↦ elim (get_symbols wave file) [
      | none ↦ none
      | some asked ↦
          reply j Server (of_array (map (symbol_json j) (symbols_of path asked.1)))
            (record t { object = record t.object { files = assign path asked.0 t.object.files } })
    ]
  ]

  unfoldable pub hover_json : Bytes → Value
  hover_json content = of_object (
      (
        codes "contents",
        markup_json j
            (record { kind = markdown; value = codes "```p4\n" ++ (content ++ codes "\n```") }),
      )
      ∷ [])

  unfoldable pub on_hover : ParamsTextDocumentPosition → Action Server
  on_hover params t = elim (lookup params.text_document t.object.files) [
    | none ↦ reply j Server null t
    | some file ↦
        let asked = get_hover file (place_of params) in
        let t' = record t {
          object = record t.object { files = assign params.text_document asked.0 t.object.files };
        } in
        elim (asked.1) [
          | none ↦ reply j Server null t'
          | some content ↦ reply j Server (hover_json content) t'
        ]
  ]

  -- A method whose parameters have no member.
  abbrev pub plain : (Value → Decode (Unit {0})) → (Unit {0} → Action Server) → Handler j Server
  plain = registered j Server

  abbrev pub at_position : (ParamsTextDocumentPosition → Action Server) → Handler j Server
  at_position = registered j Server (set_text_document_position j)

  -- The order of the registrations.
  unfoldable pub protocol_handlers : List (Bytes × Handler j Server)
  protocol_handlers =
      (codes "exit", plain (set_exit j) on_exit)
      ∷ (codes "initialize", registered j Server (set_initialize j) on_initialize)
      ∷ (codes "shutdown", plain (set_shutdown j) (on_shutdown j env))
      ∷ (codes "textDocument/codeAction", plain (set_code_action j) (on_code_action j env))
      ∷ (codes "textDocument/codeLens", plain (set_code_lens j) (on_code_lens j env))
      ∷ (codes "codeLens/resolve", plain (set_code_lens_resolve j) (on_code_lens_resolve j env))
      ∷ (codes "textDocument/completion", plain (set_completion j) (on_completion j env))
      ∷ (codes "textDocument/definition", at_position (on_definition j env))
      ∷ (codes "textDocument/didChange", registered j Server (set_did_change j) on_did_change)
      ∷ (codes "textDocument/didClose", plain (set_did_close j) (on_did_close j env))
      ∷ (codes "textDocument/didOpen", registered j Server (set_did_open j) on_did_open)
      ∷ (codes "textDocument/didSave", registered j Server (set_did_save j) on_did_save)
      ∷ (codes "textDocument/documentHighlight", at_position on_document_highlight)
      ∷ (
        codes "textDocument/documentSymbol",
        registered j Server (set_document_symbol j) on_document_symbol,
      )
      ∷ (codes "textDocument/formatting", plain (set_formatting j) (on_formatting j env))
      ∷ (codes "textDocument/hover", at_position on_hover)
      ∷ (codes "textDocument/implementation", at_position (on_implementation j env))
      ∷ (
        codes "textDocument/onTypeFormatting",
        plain (set_type_formatting j) (on_type_formatting j env),
      )
      ∷ (
        codes "textDocument/rangeFormatting",
        plain (set_range_formatting j) (on_range_formatting j env),
      )
      ∷ (codes "textDocument/rename", plain (set_rename j) (on_rename j env))
      ∷ (codes "textDocument/signatureHelp", at_position (on_signature_help j env))
      ∷ (
        codes "textDocument/switchSourceHeader",
        plain (set_switch_source_header j) (on_switch_source_header j env),
      )
      ∷ (codes "textDocument/typeDefinition", at_position (on_type_definition j env))
      ∷ (
        codes "workspace/didChangeConfiguration",
        plain (set_did_change_configuration j) (on_did_change_configuration j env),
      )
      ∷ (
        codes "workspace/didChangeWatchedFiles",
        plain (set_did_change_watched_files j) (on_did_change_watched_files j env),
      )
      ∷ (codes "workspace/executeCommand", plain (set_execute_command j) (on_execute_command j env))
      ∷ []

  unfoldable pub register_all :
      List (Bytes × Handler j Server) → Dispatcher j Server → Dispatcher j Server
  register_all [] d = d
  register_all ((method, handler) ∷ rest) d =
      register_all rest (register_handler j Server method handler d)

  -- The dispatcher of `LSP_server::run`.
  unfoldable pub server_dispatcher : Dispatcher j Server
  unfolding register_all protocol_handlers
  server_dispatcher = register_all protocol_handlers (record {
    handlers = [];
    error_handler = λ _. reply_error j Server method_not_found (codes "method not found");
  })
