-- ===== src/Protocol/Capabilities/Navigation.antt =====
-- server/lsp/protocol.h: what the client supports of navigation, actions and diagnostics.
use p4ls.Prelude.{Option, Bool, codes}
use p4ls.Json.{Json}
use p4ls.Json.Decode.{Decode, ok, ◌>>=◌, optional, bool}

pub record Definition : Type 0 where
  pub dynamic_registration : Option Bool

pub record TypeDefinition : Type 0 where
  pub dynamic_registration : Option Bool

pub record Implementation : Type 0 where
  pub dynamic_registration : Option Bool

pub record CodeAction : Type 0 where
  pub dynamic_registration : Option Bool

pub record CodeLens : Type 0 where
  pub dynamic_registration : Option Bool

pub record DocumentLink : Type 0 where
  pub dynamic_registration : Option Bool

pub record ColorProvider : Type 0 where
  pub dynamic_registration : Option Bool

pub record Rename : Type 0 where
  pub dynamic_registration : Option Bool

pub record PublishDiagnostics : Type 0 where
  pub related_information : Option Bool

module _ (j : Json) where
  open j use {Value}

  unfoldable pub decode_definition : Value → Decode Definition
  decode_definition v = do
    dynamic_registration ← optional j (bool j) v (codes "dynamicRegistration")
    ok (record { dynamic_registration = dynamic_registration })

  unfoldable pub decode_type_definition : Value → Decode TypeDefinition
  decode_type_definition v = do
    dynamic_registration ← optional j (bool j) v (codes "dynamicRegistration")
    ok (record { dynamic_registration = dynamic_registration })

  unfoldable pub decode_implementation : Value → Decode Implementation
  decode_implementation v = do
    dynamic_registration ← optional j (bool j) v (codes "dynamicRegistration")
    ok (record { dynamic_registration = dynamic_registration })

  unfoldable pub decode_code_action : Value → Decode CodeAction
  decode_code_action v = do
    dynamic_registration ← optional j (bool j) v (codes "dynamicRegistration")
    ok (record { dynamic_registration = dynamic_registration })

  unfoldable pub decode_code_lens : Value → Decode CodeLens
  decode_code_lens v = do
    dynamic_registration ← optional j (bool j) v (codes "dynamicRegistration")
    ok (record { dynamic_registration = dynamic_registration })

  unfoldable pub decode_document_link : Value → Decode DocumentLink
  decode_document_link v = do
    dynamic_registration ← optional j (bool j) v (codes "dynamicRegistration")
    ok (record { dynamic_registration = dynamic_registration })

  unfoldable pub decode_color_provider : Value → Decode ColorProvider
  decode_color_provider v = do
    dynamic_registration ← optional j (bool j) v (codes "dynamicRegistration")
    ok (record { dynamic_registration = dynamic_registration })

  unfoldable pub decode_rename : Value → Decode Rename
  decode_rename v = do
    dynamic_registration ← optional j (bool j) v (codes "dynamicRegistration")
    ok (record { dynamic_registration = dynamic_registration })

  unfoldable pub decode_publish_diagnostics : Value → Decode PublishDiagnostics
  decode_publish_diagnostics v = do
    related_information ← optional j (bool j) v (codes "relatedInformation")
    ok (record { related_information = related_information })
