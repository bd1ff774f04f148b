-- ===== src/Protocol/Capabilities/Editing.antt =====
-- server/lsp/protocol.h: what the client supports of completion, hover and signatures.
use p4ls.Prelude.{Option, Bool, List, codes}
use p4ls.Json.{Json}
use p4ls.Json.Decode.{Decode, ok, ◌>>=◌, optional, bool}
use p4ls.Protocol.Kinds.CompletionItem.{CompletionItemKind}
use p4ls.Protocol.Kinds.{MarkupKind}
use p4ls.Protocol.Capabilities.Lists.{completion_item_kinds, markup_kinds}

pub record Synchronization : Type 0 where
  pub dynamic_registration : Option Bool
  pub will_save : Option Bool
  pub will_save_wait_until : Option Bool
  pub did_save : Option Bool

pub record CompletionItem : Type 0 where
  pub snippet_support : Option Bool
  pub commit_characters_support : Option Bool
  pub documentation_format : Option (List MarkupKind)

pub record CompletionItemKinds : Type 0 where
  pub value_set : Option (List CompletionItemKind)

pub record Completion : Type 0 where
  pub dynamic_registration : Option Bool
  pub context_support : Option Bool
  pub completion_item : Option CompletionItem
  pub completion_item_kind : Option CompletionItemKinds

pub record Hover : Type 0 where
  pub dynamic_registration : Option Bool
  pub content_format : Option (List MarkupKind)

pub record SignatureInformation : Type 0 where
  pub documentation_format : Option (List MarkupKind)

pub record SignatureHelp : Type 0 where
  pub dynamic_registration : Option Bool
  pub signature_information : Option SignatureInformation

module _ (j : Json) where
  open j use {Value}

  unfoldable pub decode_synchronization : Value → Decode Synchronization
  decode_synchronization v = do
    dynamic_registration ← optional j (bool j) v (codes "dynamicRegistration")
    will_save ← optional j (bool j) v (codes "willSave")
    will_save_wait_until ← optional j (bool j) v (codes "willSaveWaitUntil")
    did_save ← optional j (bool j) v (codes "didSave")
    ok (record {
      dynamic_registration = dynamic_registration;
      will_save = will_save;
      will_save_wait_until = will_save_wait_until;
      did_save = did_save;
    })

  unfoldable pub decode_completion_item : Value → Decode CompletionItem
  decode_completion_item v = do
    snippet_support ← optional j (bool j) v (codes "snippetSupport")
    commit_characters_support ← optional j (bool j) v (codes "commitCharactersSupport")
    documentation_format ← optional j (markup_kinds j) v (codes "documentationFormat")
    ok (record {
      snippet_support = snippet_support;
      commit_characters_support = commit_characters_support;
      documentation_format = documentation_format;
    })

  unfoldable pub decode_completion_item_kinds : Value → Decode CompletionItemKinds
  decode_completion_item_kinds v = do
    value_set ← optional j (completion_item_kinds j) v (codes "valueSet")
    ok (record { value_set = value_set })

  unfoldable pub decode_completion : Value → Decode Completion
  decode_completion v = do
    dynamic_registration ← optional j (bool j) v (codes "dynamicRegistration")
    context_support ← optional j (bool j) v (codes "contextSupport")
    completion_item ← optional j decode_completion_item v (codes "completionItem")
    completion_item_kind ← optional j decode_completion_item_kinds v (codes "completionItemKind")
    ok (record {
      dynamic_registration = dynamic_registration;
      context_support = context_support;
      completion_item = completion_item;
      completion_item_kind = completion_item_kind;
    })

  unfoldable pub decode_hover : Value → Decode Hover
  decode_hover v = do
    dynamic_registration ← optional j (bool j) v (codes "dynamicRegistration")
    content_format ← optional j (markup_kinds j) v (codes "contentFormat")
    ok (record { dynamic_registration = dynamic_registration; content_format = content_format })

  unfoldable pub decode_signature_information : Value → Decode SignatureInformation
  decode_signature_information v = do
    documentation_format ← optional j (markup_kinds j) v (codes "documentationFormat")
    ok (record { documentation_format = documentation_format })

  unfoldable pub decode_signature_help : Value → Decode SignatureHelp
  decode_signature_help v = do
    dynamic_registration ← optional j (bool j) v (codes "dynamicRegistration")
    signature_information ← optional j decode_signature_information v (codes "signatureInformation")
    ok (record {
      dynamic_registration = dynamic_registration;
      signature_information = signature_information;
    })
