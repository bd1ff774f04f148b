-- ===== src/Server.antt =====
-- server/lsp/lsp_server.h and lsp_server.cpp: the server object and the methods of the protocol.
pub mod Commands
pub mod Stubs
pub mod Handlers
use p4ls.Prelude.{Bool, true, false, none, some, List, [], Bytes}
use p4ls.P4Unit.File.{P4File}
use p4ls.Protocol.Kinds.{incremental}
use p4ls.Protocol.ServerCapabilities.{ServerCapabilities}

-- The members that the methods read or write; the streams and the threads are in p4ls.Transport.
pub record Server : Type 0 where
  pub capabilities : ServerCapabilities
  pub is_done : Bool
  pub files : List (Bytes × P4File)
  pub commands : List (Bytes × Bytes)

-- The initialisers of the constructor.
unfoldable pub new_server : Server
new_server = record {
  capabilities = record {
    workspace = none;
    text_document_sync = some (record {
      open_close = some true;
      will_save = some true;
      will_save_wait_until = some true;
      change = some incremental;
      save = some (record { include_text = some true });
    });
    completion_provider = none;
    signature_help_provider = none;
    code_lens_provider = none;
    document_on_type_formatting_provider = none;
    document_link_provider = none;
    color_provider = none;
    execute_command_provider = none;
    hover_provider = some true;
    definition_provider = some true;
    type_definition_provider = some true;
    implementation_provider = some true;
    references_provider = some true;
    document_highlight_provider = some true;
    document_symbol_provider = some true;
    workspace_symbol_provider = none;
    code_action_provider = none;
    document_formatting_provider = none;
    document_range_formatting_provider = none;
    rename_provider = some true;
  };
  is_done = false;
  files = [];
  commands = [];
}
