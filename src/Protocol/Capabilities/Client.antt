-- ===== src/Protocol/Capabilities/Client.antt =====
-- `Client_capabilities::set` as a whole: the server survives exactly the capabilities that conform.
use p4ls.Prelude.{◌↔◌, refl, codes}
use p4ls.Json.{Json}
use p4ls.Json.Decode.{Returns, Member, bind-Returns, bind-Returns_inv}
use p4ls.Protocol.Capabilities.{decode_client_capabilities}
use p4ls.Protocol.Capabilities.Conforming
use p4ls.Protocol.Capabilities.TextDocument.{decode_text_document_client_capabilities}
use p4ls.Protocol.Capabilities.TextDocumentConforming.{
  TextDocumentClientCapabilitiesConforms, decode_text_document_client_capabilities-Returns,
  decode_text_document_client_capabilities-Conforms,
}
use p4ls.Protocol.Capabilities.Workspace.{decode_workspace_client_capabilities}
use p4ls.Protocol.Capabilities.WorkspaceConforming.{
  WorkspaceClientCapabilitiesConforms, decode_workspace_client_capabilities-Returns,
  decode_workspace_client_capabilities-Conforms,
}

module _ (j : Json) where
  -- The value is an object, and so are its two members, unless missing or null; the members of
  -- these conform in turn, down to flags that are Booleans, names that are strings, kinds that are
  -- integers.
  pub record ClientCapabilitiesConforms (v : j.Value) : Type 0 where
    pub workspace : Member j (WorkspaceClientCapabilitiesConforms j) v (codes "workspace")
    pub text_document : Member j (TextDocumentClientCapabilitiesConforms j) v (codes "textDocument")

  client_capabilities-Returns :
      (v : j.Value) → ClientCapabilitiesConforms v → Returns (decode_client_capabilities j v)
  unfolding decode_client_capabilities
  client_capabilities-Returns v c =
      bind-Returns
        (Conforming.optional-Returns j (decode_workspace_client_capabilities j)
          (decode_workspace_client_capabilities-Returns j) v _ c.workspace)
        λ workspace.
          bind-Returns
            (Conforming.optional-Returns j (decode_text_document_client_capabilities j)
              (decode_text_document_client_capabilities-Returns j) v _ c.text_document)
            λ text_document. (_, refl)

  client_capabilities-Conforms :
      (v : j.Value) → Returns (decode_client_capabilities j v) → ClientCapabilitiesConforms v
  unfolding decode_client_capabilities
  client_capabilities-Conforms v r =
      let (a, e, r') = bind-Returns_inv r in
      let (b, f, _) = bind-Returns_inv r' in
      record {
        workspace =
            Conforming.optional-Member j (decode_workspace_client_capabilities j)
              (decode_workspace_client_capabilities-Conforms j) v _ (a, e);
        text_document =
            Conforming.optional-Member j (decode_text_document_client_capabilities j)
              (decode_text_document_client_capabilities-Conforms j) v _ (b, f);
      }

-- The capabilities of a client are read, with no assertion failed, exactly when the value is an
-- object whose members, at every depth that is read, are missing, null or of the type that is read.
pub decode_client_capabilities_iff :
    (j : Json) (v : j.Value)
    → Returns (decode_client_capabilities j v) ↔ ClientCapabilitiesConforms j v
decode_client_capabilities_iff j v =
    (client_capabilities-Conforms j v, client_capabilities-Returns j v)
