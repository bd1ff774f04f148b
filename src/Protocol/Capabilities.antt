-- ===== src/Protocol/Capabilities.antt =====
-- server/lsp/protocol.h: the capabilities that a client states on `initialize`.
pub mod Lists
pub mod Conforming
pub mod Client
pub mod Editing
pub mod EditingConforming
pub mod HelpConforming
pub mod Documents
pub mod DocumentsConforming
pub mod Navigation
pub mod NavigationConforming
pub mod TextDocument
pub mod TextDocumentConforming
pub mod Workspace
pub mod WorkspaceConforming
use p4ls.Prelude.{Option, codes}
use p4ls.Json.{Json}
use p4ls.Json.Decode.{Decode, ok, ◌>>=◌, optional}
use TextDocument.{TextDocumentClientCapabilities, decode_text_document_client_capabilities}
use Workspace.{WorkspaceClientCapabilities, decode_workspace_client_capabilities}

pub record ClientCapabilities : Type 0 where
  pub workspace : Option WorkspaceClientCapabilities
  pub text_document : Option TextDocumentClientCapabilities

-- `Client_capabilities::set`
unfoldable pub decode_client_capabilities : (j : Json) → j.Value → Decode ClientCapabilities
decode_client_capabilities j v = do
  workspace ← optional j (decode_workspace_client_capabilities j) v (codes "workspace")
  text_document ← optional j (decode_text_document_client_capabilities j) v (codes "textDocument")
  ok (record { workspace = workspace; text_document = text_document })
