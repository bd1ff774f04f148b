-- ===== src/Protocol/Capabilities/Workspace.antt =====
-- server/lsp/protocol.h: the client's capabilities for a workspace.
use p4ls.Prelude.{Option, Bool, List, codes}
use p4ls.Json.{Json}
use p4ls.Json.Decode.{Decode, ok, ◌>>=◌, optional, bool}
use p4ls.Protocol.Kinds.Symbol.{SymbolKind}
use p4ls.Protocol.Capabilities.Lists.{symbol_kinds}

pub record WorkspaceEdit : Type 0 where
  pub document_changes : Option Bool

pub record DidChangeConfiguration : Type 0 where
  pub dynamic_registration : Option Bool

pub record DidChangeWatchedFiles : Type 0 where
  pub dynamic_registration : Option Bool

pub record ExecuteCommand : Type 0 where
  pub dynamic_registration : Option Bool

pub record WorkspaceSymbolKinds : Type 0 where
  pub value_set : Option (List SymbolKind)

pub record WorkspaceSymbol : Type 0 where
  pub dynamic_registration : Option Bool
  pub symbol_kind : Option WorkspaceSymbolKinds

pub record WorkspaceClientCapabilities : Type 0 where
  pub apply_edit : Option Bool
  pub workspace_folders : Option Bool
  pub configuration : Option Bool
  pub workspace_edit : Option WorkspaceEdit
  pub did_change_configuration : Option DidChangeConfiguration
  pub did_change_watched_files : Option DidChangeWatchedFiles
  pub execute_command : Option ExecuteCommand
  pub symbol : Option WorkspaceSymbol

module _ (j : Json) where
  open j use {Value}

  unfoldable pub decode_workspace_edit : Value → Decode WorkspaceEdit
  decode_workspace_edit v = do
    document_changes ← optional j (bool j) v (codes "documentChanges")
    ok (record { document_changes = document_changes })

  unfoldable pub decode_did_change_configuration : Value → Decode DidChangeConfiguration
  decode_did_change_configuration v = do
    dynamic_registration ← optional j (bool j) v (codes "dynamicRegistration")
    ok (record { dynamic_registration = dynamic_registration })

  unfoldable pub decode_did_change_watched_files : Value → Decode DidChangeWatchedFiles
  decode_did_change_watched_files v = do
    dynamic_registration ← optional j (bool j) v (codes "dynamicRegistration")
    ok (record { dynamic_registration = dynamic_registration })

  unfoldable pub decode_execute_command : Value → Decode ExecuteCommand
  decode_execute_command v = do
    dynamic_registration ← optional j (bool j) v (codes "dynamicRegistration")
    ok (record { dynamic_registration = dynamic_registration })

  unfoldable pub decode_workspace_symbol_kinds : Value → Decode WorkspaceSymbolKinds
  decode_workspace_symbol_kinds v = do
    value_set ← optional j (symbol_kinds j) v (codes "valueSet")
    ok (record { value_set = value_set })

  unfoldable pub decode_workspace_symbol : Value → Decode WorkspaceSymbol
  decode_workspace_symbol v = do
    dynamic_registration ← optional j (bool j) v (codes "dynamicRegistration")
    symbol_kind ← optional j decode_workspace_symbol_kinds v (codes "symbolKind")
    ok (record { dynamic_registration = dynamic_registration; symbol_kind = symbol_kind })

  unfoldable pub decode_workspace_client_capabilities : Value → Decode WorkspaceClientCapabilities
  decode_workspace_client_capabilities v = do
    apply_edit ← optional j (bool j) v (codes "applyEdit")
    workspace_folders ← optional j (bool j) v (codes "workspaceFolders")
    configuration ← optional j (bool j) v (codes "configuration")
    workspace_edit ← optional j decode_workspace_edit v (codes "workspaceEdit")
    did_change_configuration ←
        optional j decode_did_change_configuration v (codes "didChangeConfiguration")
    did_change_watched_files ←
        optional j decode_did_change_watched_files v (codes "didChangeWatchedFiles")
    execute_command ← optional j decode_execute_command v (codes "executeCommand")
    symbol ← optional j decode_workspace_symbol v (codes "symbol")
    ok (record {
      apply_edit = apply_edit;
      workspace_folders = workspace_folders;
      configuration = configuration;
      workspace_edit = workspace_edit;
      did_change_configuration = did_change_configuration;
      did_change_watched_files = did_change_watched_files;
      execute_command = execute_command;
      symbol = symbol;
    })
