-- ===== src/Protocol/Capabilities/WorkspaceConforming.antt =====
-- The shape of value under which each of these decoders returns: every member that is there and
-- not null has the type that the protocol gives it.
use p4ls.Prelude.{refl, codes}
use p4ls.Json.{Json}
use p4ls.Json.Decode.{Returns, bind-Returns, bind-Returns_inv, Member, bool}
use p4ls.Protocol.Capabilities.Lists.{symbol_kinds}
use p4ls.Protocol.Capabilities.Conforming
use p4ls.Protocol.Capabilities.Conforming.{
  IsBool, bool-Returns, bool-Conforms, IsIntArray, symbol_kinds-Returns, symbol_kinds-Conforms,
}
use p4ls.Protocol.Capabilities.Workspace.{
  decode_workspace_edit, decode_did_change_configuration, decode_did_change_watched_files,
  decode_execute_command, decode_workspace_symbol_kinds, decode_workspace_symbol,
  decode_workspace_client_capabilities,
}

module _ (j : Json) where
  open j use {Value}

  pub record WorkspaceEditConforms (v : Value) : Type 0 where
    pub document_changes : Member j (IsBool j) v (codes "documentChanges")

  pub decode_workspace_edit-Returns :
      (v : Value) → WorkspaceEditConforms v → Returns (decode_workspace_edit j v)
  unfolding decode_workspace_edit
  decode_workspace_edit-Returns v c =
      bind-Returns (Conforming.optional-Returns j (bool j) (bool-Returns j) v _ c.document_changes)
        λ document_changes. (record { document_changes = document_changes }, refl)

  pub decode_workspace_edit-Conforms :
      (v : Value) → Returns (decode_workspace_edit j v) → WorkspaceEditConforms v
  unfolding decode_workspace_edit
  decode_workspace_edit-Conforms v r =
      let (a0, e0, r0) = bind-Returns_inv r in
      record {
        document_changes = Conforming.optional-Member j (bool j) (bool-Conforms j) v _ (a0, e0);
      }

  pub record DidChangeConfigurationConforms (v : Value) : Type 0 where
    pub dynamic_registration : Member j (IsBool j) v (codes "dynamicRegistration")

  pub decode_did_change_configuration-Returns :
      (v : Value) → DidChangeConfigurationConforms v → Returns (decode_did_change_configuration j v)
  unfolding decode_did_change_configuration
  decode_did_change_configuration-Returns v c =
      bind-Returns
        (Conforming.optional-Returns j (bool j) (bool-Returns j) v _ c.dynamic_registration)
        λ dynamic_registration. (record { dynamic_registration = dynamic_registration }, refl)

  pub decode_did_change_configuration-Conforms :
      (v : Value) → Returns (decode_did_change_configuration j v) → DidChangeConfigurationConforms v
  unfolding decode_did_change_configuration
  decode_did_change_configuration-Conforms v r =
      let (a0, e0, r0) = bind-Returns_inv r in
      record {
        dynamic_registration = Conforming.optional-Member j (bool j) (bool-Conforms j) v _ (a0, e0);
      }

  pub record DidChangeWatchedFilesConforms (v : Value) : Type 0 where
    pub dynamic_registration : Member j (IsBool j) v (codes "dynamicRegistration")

  pub decode_did_change_watched_files-Returns :
      (v : Value) → DidChangeWatchedFilesConforms v → Returns (decode_did_change_watched_files j v)
  unfolding decode_did_change_watched_files
  decode_did_change_watched_files-Returns v c =
      bind-Returns
        (Conforming.optional-Returns j (bool j) (bool-Returns j) v _ c.dynamic_registration)
        λ dynamic_registration. (record { dynamic_registration = dynamic_registration }, refl)

  pub decode_did_change_watched_files-Conforms :
      (v : Value) → Returns (decode_did_change_watched_files j v) → DidChangeWatchedFilesConforms v
  unfolding decode_did_change_watched_files
  decode_did_change_watched_files-Conforms v r =
      let (a0, e0, r0) = bind-Returns_inv r in
      record {
        dynamic_registration = Conforming.optional-Member j (bool j) (bool-Conforms j) v _ (a0, e0);
      }

  pub record ExecuteCommandConforms (v : Value) : Type 0 where
    pub dynamic_registration : Member j (IsBool j) v (codes "dynamicRegistration")

  pub decode_execute_command-Returns :
      (v : Value) → ExecuteCommandConforms v → Returns (decode_execute_command j v)
  unfolding decode_execute_command
  decode_execute_command-Returns v c =
      bind-Returns
        (Conforming.optional-Returns j (bool j) (bool-Returns j) v _ c.dynamic_registration)
        λ dynamic_registration. (record { dynamic_registration = dynamic_registration }, refl)

  pub decode_execute_command-Conforms :
      (v : Value) → Returns (decode_execute_command j v) → ExecuteCommandConforms v
  unfolding decode_execute_command
  decode_execute_command-Conforms v r =
      let (a0, e0, r0) = bind-Returns_inv r in
      record {
        dynamic_registration = Conforming.optional-Member j (bool j) (bool-Conforms j) v _ (a0, e0);
      }

  pub record WorkspaceSymbolKindsConforms (v : Value) : Type 0 where
    pub value_set : Member j (IsIntArray j) v (codes "valueSet")

  pub decode_workspace_symbol_kinds-Returns :
      (v : Value) → WorkspaceSymbolKindsConforms v → Returns (decode_workspace_symbol_kinds j v)
  unfolding decode_workspace_symbol_kinds
  decode_workspace_symbol_kinds-Returns v c =
      bind-Returns
        (Conforming.optional-Returns j (symbol_kinds j) (symbol_kinds-Returns j) v _ c.value_set)
        λ value_set. (record { value_set = value_set }, refl)

  pub decode_workspace_symbol_kinds-Conforms :
      (v : Value) → Returns (decode_workspace_symbol_kinds j v) → WorkspaceSymbolKindsConforms v
  unfolding decode_workspace_symbol_kinds
  decode_workspace_symbol_kinds-Conforms v r =
      let (a0, e0, r0) = bind-Returns_inv r in
      record {
        value_set =
            Conforming.optional-Member j (symbol_kinds j) (symbol_kinds-Conforms j) v _ (a0, e0);
      }

  pub record WorkspaceSymbolConforms (v : Value) : Type 0 where
    pub dynamic_registration : Member j (IsBool j) v (codes "dynamicRegistration")
    pub symbol_kind : Member j WorkspaceSymbolKindsConforms v (codes "symbolKind")

  pub decode_workspace_symbol-Returns :
      (v : Value) → WorkspaceSymbolConforms v → Returns (decode_workspace_symbol j v)
  unfolding decode_workspace_symbol
  decode_workspace_symbol-Returns v c =
      let (dynamic_registration, e0) =
        Conforming.optional-Returns j (bool j) (bool-Returns j) v _ c.dynamic_registration in
      let (symbol_kind, e1) =
        Conforming.optional-Returns j (decode_workspace_symbol_kinds j)
          (decode_workspace_symbol_kinds-Returns) v _ c.symbol_kind in
      (
        record { dynamic_registration = dynamic_registration; symbol_kind = symbol_kind },
        rw (e0, e1) refl,
      )

  pub decode_workspace_symbol-Conforms :
      (v : Value) → Returns (decode_workspace_symbol j v) → WorkspaceSymbolConforms v
  unfolding decode_workspace_symbol
  decode_workspace_symbol-Conforms v r =
      let (a0, e0, r0) = bind-Returns_inv r in
      let (a1, e1, r1) = bind-Returns_inv r0 in
      record {
        dynamic_registration = Conforming.optional-Member j (bool j) (bool-Conforms j) v _ (a0, e0);
        symbol_kind =
            Conforming.optional-Member j (decode_workspace_symbol_kinds j)
              (decode_workspace_symbol_kinds-Conforms) v _ (a1, e1);
      }

  pub record WorkspaceClientCapabilitiesConforms (v : Value) : Type 0 where
    pub apply_edit : Member j (IsBool j) v (codes "applyEdit")
    pub workspace_folders : Member j (IsBool j) v (codes "workspaceFolders")
    pub configuration : Member j (IsBool j) v (codes "configuration")
    pub workspace_edit : Member j WorkspaceEditConforms v (codes "workspaceEdit")
    pub did_change_configuration :
        Member j DidChangeConfigurationConforms v (codes "didChangeConfiguration")
    pub did_change_watched_files :
        Member j DidChangeWatchedFilesConforms v (codes "didChangeWatchedFiles")
    pub execute_command : Member j ExecuteCommandConforms v (codes "executeCommand")
    pub symbol : Member j WorkspaceSymbolConforms v (codes "symbol")

  pub decode_workspace_client_capabilities-Returns :
      (v : Value)
      → WorkspaceClientCapabilitiesConforms v
      → Returns (decode_workspace_client_capabilities j v)
  unfolding decode_workspace_client_capabilities
  decode_workspace_client_capabilities-Returns v c =
      let (apply_edit, e0) =
        Conforming.optional-Returns j (bool j) (bool-Returns j) v _ c.apply_edit in
      let (workspace_folders, e1) =
        Conforming.optional-Returns j (bool j) (bool-Returns j) v _ c.workspace_folders in
      let (configuration, e2) =
        Conforming.optional-Returns j (bool j) (bool-Returns j) v _ c.configuration in
      let (workspace_edit, e3) =
        Conforming.optional-Returns j (decode_workspace_edit j) (decode_workspace_edit-Returns) v _
          c.workspace_edit in
      let (did_change_configuration, e4) =
        Conforming.optional-Returns j (decode_did_change_configuration j)
          (decode_did_change_configuration-Returns) v _ c.did_change_configuration in
      let (did_change_watched_files, e5) =
        Conforming.optional-Returns j (decode_did_change_watched_files j)
          (decode_did_change_watched_files-Returns) v _ c.did_change_watched_files in
      let (execute_command, e6) =
        Conforming.optional-Returns j (decode_execute_command j) (decode_execute_command-Returns) v
          _ c.execute_command in
      let (symbol, e7) =
        Conforming.optional-Returns j (decode_workspace_symbol j) (decode_workspace_symbol-Returns)
          v _ c.symbol in
      (
        record {
          apply_edit = apply_edit;
          workspace_folders = workspace_folders;
          configuration = configuration;
          workspace_edit = workspace_edit;
          did_change_configuration = did_change_configuration;
          did_change_watched_files = did_change_watched_files;
          execute_command = execute_command;
          symbol = symbol;
        },
        rw (e0, e1, e2, e3, e4, e5, e6, e7) refl,
      )

  pub decode_workspace_client_capabilities-Conforms :
      (v : Value)
      → Returns (decode_workspace_client_capabilities j v)
      → WorkspaceClientCapabilitiesConforms v
  unfolding decode_workspace_client_capabilities
  decode_workspace_client_capabilities-Conforms v r =
      let (a0, e0, r0) = bind-Returns_inv r in
      let (a1, e1, r1) = bind-Returns_inv r0 in
      let (a2, e2, r2) = bind-Returns_inv r1 in
      let (a3, e3, r3) = bind-Returns_inv r2 in
      let (a4, e4, r4) = bind-Returns_inv r3 in
      let (a5, e5, r5) = bind-Returns_inv r4 in
      let (a6, e6, r6) = bind-Returns_inv r5 in
      let (a7, e7, r7) = bind-Returns_inv r6 in
      record {
        apply_edit = Conforming.optional-Member j (bool j) (bool-Conforms j) v _ (a0, e0);
        workspace_folders = Conforming.optional-Member j (bool j) (bool-Conforms j) v _ (a1, e1);
        configuration = Conforming.optional-Member j (bool j) (bool-Conforms j) v _ (a2, e2);
        workspace_edit =
            Conforming.optional-Member j (decode_workspace_edit j) (decode_workspace_edit-Conforms)
              v _ (a3, e3);
        did_change_configuration =
            Conforming.optional-Member j (decode_did_change_configuration j)
              (decode_did_change_configuration-Conforms) v _ (a4, e4);
        did_change_watched_files =
            Conforming.optional-Member j (decode_did_change_watched_files j)
              (decode_did_change_watched_files-Conforms) v _ (a5, e5);
        execute_command =
            Conforming.optional-Member j (decode_execute_command j)
              (decode_execute_command-Conforms) v _ (a6, e6);
        symbol =
            Conforming.optional-Member j (decode_workspace_symbol j)
              (decode_workspace_symbol-Conforms) v _ (a7, e7);
      }
