-- ===== src/Server/Handlers/Events.antt =====
-- The calls that name a document, and what they mean for the texts of the open documents.
pub mod Changes
pub mod Answered
use p4ls.Prelude.{
  ◌≡◌, refl, sym, subst, ◌++◌, map, ap, ◌∙◌, ◌⊎◌, inl, inr, Option, none, some, List, [], ◌∷◌,
  Bytes, codes, equal, equal_iff, lookup, assign, emplace, lookup-assign, lookup-emplace,
  if◌then◌else◌, Option-cases, arith,
}
use p4ls.Prelude.Int.{ℤ}
use p4ls.Json.{Json}
use p4ls.Json.Decode.{Returns}
use p4ls.Context.{int_value, stream_value, get_value, request_id, request_output_stream}
use p4ls.Protocol.Params.{
  TextDocumentItem, ParamsTextDocumentPosition, ParamsDidChange, ParamsDidSave,
}
use p4ls.P4Unit.Edit.{apply_changes}
use p4ls.P4Unit.File.{
  P4File, new_file, compile, change_source_code, get_symbols, get_hover, get_highlights,
}
use p4ls.Protocol.Encode.{TextDocumentHighlight, highlight_json, symbol_json}
use p4ls.P4Unit.File.Queries.{queries_change_no_answer}
use p4ls.Dispatcher.{Thread, Action, send, reply, reply_text}
use p4ls.Server.{Server}
use p4ls.Server.Commands.{Environment, find_command_for_path}
use p4ls.Server.Stubs.{on_ignored}
use p4ls.Server.Handlers.{
  on_did_change, on_did_open, on_did_save, on_document_highlight, on_document_symbol, on_hover,
  hover_json, symbols_of, place_of,
}

-- The calls that name a document.
pub data Event : Type 0 where
  opened : TextDocumentItem → Event
  changed : ParamsDidChange → Event
  closed : Event
  saved : ParamsDidSave → Event
  highlight hover : ParamsTextDocumentPosition → Event
  symbols : Bytes → Event

module _ (j : Json) (env : Environment j) where
  unfoldable pub handle : Event → Action Server
  handle (opened item) = on_did_open j env item
  handle (changed params) = on_did_change j env params
  handle closed = on_ignored j env tt
  handle (saved params) = on_did_save j env params
  handle (highlight params) = on_document_highlight j env params
  handle (hover params) = on_hover j env params
  handle (symbols path) = on_document_symbol j env path

  unfoldable pub handle_all : List Event → Action Server
  handle_all [] t = some t
  handle_all (e ∷ es) t = elim (handle e t) [ none ↦ none | some t' ↦ handle_all es t' ]

-- A thread outside of a request, or in one with its id and its stream.
abbrev pub CanSend : Thread Server → Type 0
CanSend t =
    (get_value request_id t.current ≡ none)
    ⊎ ((id : ℤ) × (get_value request_id t.current ≡ some (int_value id))
        × (get_value request_output_stream t.current ≡ some (stream_value 0)))

-- The text of the document at `path`.
unfoldable pub text_at : Bytes → Thread Server → Option Bytes
text_at path t = elim (lookup path t.object.files) [ none ↦ none | some f ↦ some f.source_code ]

-- What each call makes of the text of one document: the first opening sets it, a change edits it.
unfoldable pub text_after : Bytes → Event → Option Bytes → Option Bytes
text_after path (opened item) none = if equal item.uri path then some item.text else none
text_after path (opened item) (some text) = some text
text_after path (changed params) none = none
text_after path (changed params) (some text) =
    if equal params.text_document.uri path
    then some (apply_changes text params.content_changes)
    else some text
text_after path closed text = text
text_after path (saved _) text = text
text_after path (highlight _) text = text
text_after path (hover _) text = text
text_after path (symbols _) text = text

unfoldable pub text_after_all : Bytes → List Event → Option Bytes → Option Bytes
text_after_all path [] text = text
text_after_all path (e ∷ es) text = text_after_all path es (text_after path e text)

module _ (j : Json) (env : Environment j) where
  -- The call goes through, can be followed by another, and does what is said of each text.
  abbrev pub Goes : Event → Thread Server → Type 0
  Goes e t =
      (t' : Thread Server) × (handle j env e t ≡ some t')
      × CanSend t'
      × ((path : Bytes) → text_at path t' ≡ text_after path e (text_at path t))
