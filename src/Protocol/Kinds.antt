-- ===== src/Protocol/Kinds.antt =====
-- The enumerations of server/lsp/protocol.h.
pub mod CompletionItem
pub mod Symbol
use p4ls.Prelude.{ℕ, Bytes, codes, equal, if◌then◌else◌}

pub data DocumentHighlightKind : Type 0 where
  text read write : DocumentHighlightKind

-- `static_cast<int>` of a highlight's kind.
unfoldable pub highlight_to_int : DocumentHighlightKind → ℕ
highlight_to_int text = 1
highlight_to_int read = 2
highlight_to_int write = 3

pub data MarkupKind : Type 0 where
  plaintext markdown : MarkupKind

unfoldable pub convert_string_to_markup_kind : Bytes → MarkupKind
unfolding equal
convert_string_to_markup_kind v =
    if equal v (codes "plaintext")
    then plaintext
    else if equal v (codes "markdown")
    then markdown
    else plaintext

unfoldable pub convert_markup_kind_to_string : MarkupKind → Bytes
convert_markup_kind_to_string plaintext = codes "plaintext"
convert_markup_kind_to_string markdown = codes "markdown"

pub data TraceLevel : Type 0 where
  off messages verbose : TraceLevel

pub data TextDocumentSyncKind : Type 0 where
  none_kind full incremental : TextDocumentSyncKind

unfoldable pub sync_to_int : TextDocumentSyncKind → ℕ
sync_to_int none_kind = 0
sync_to_int full = 1
sync_to_int incremental = 2
