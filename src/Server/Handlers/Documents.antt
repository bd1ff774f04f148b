-- ===== src/Server/Handlers/Documents.antt =====
-- The texts of the open documents through any sequence of the methods that deal with them.
use p4ls.Prelude.{
  ◌≡◌, refl, ap, ◌∙◌, some, List, [], ◌∷◌, Bytes, lookup, emplace, lookup-emplace, arith,
}
use p4ls.Json.{Json}
use p4ls.Json.Decode.{Returns}
use p4ls.Protocol.Params.{TextDocumentItem}
use p4ls.P4Unit.File.{P4File, Compiles, uncompiled, new_file-Compiles}
use p4ls.Dispatcher.{Thread}
use p4ls.Server.{Server}
use p4ls.Server.Commands.{Environment, find_command_for_path}
use p4ls.Server.Stubs.{on_ignored}
use p4ls.Server.Handlers.{on_did_open, on_did_save}
use p4ls.Server.Handlers.Events.{
  Event, opened, changed, closed, saved, highlight, hover, symbols, handle, handle_all, CanSend,
  text_at, text_after, text_after_all, Goes,
}
use p4ls.Server.Handlers.Events.Changes.{opened-Goes, changed-Goes}
use p4ls.Server.Handlers.Events.Answered.{hover-Goes, highlight-Goes, symbols-Goes}

module _ (j : Json) (env : Environment j) where
  event-Goes :
      (e : Event) (t : Thread Server)
      → ((path : Bytes) (commands : List (Bytes × Bytes))
          → Returns (find_command_for_path j env path commands))
      → ((path text : Bytes) → Compiles env.wave path text)
      → CanSend t
      → Goes j env e t
  unfolding handle text_after on_ignored on_did_save
  event-Goes (opened item) t finds ends c =
      opened-Goes j env item t (finds item.uri t.object.commands) (ends item.uri item.text) c
  event-Goes (changed params) t finds ends c = changed-Goes j env params t c
  event-Goes closed t finds ends c = (t, refl, c, λ path. refl)
  event-Goes (saved params) t finds ends c = (t, refl, c, λ path. refl)
  event-Goes (highlight params) t finds ends c = highlight-Goes j env params t c
  event-Goes (hover params) t finds ends c = hover-Goes j env params t c
  event-Goes (symbols path) t finds ends c = symbols-Goes j env path t ends c

  -- Any sequence of calls about documents goes through, where the search for a command always
  -- returns, the loop over the preprocessor ends on every text, and the thread is outside of a request or in one with its id and its stream. Afterwards
  -- the text of every document is the first that it was opened with, with the later changes to that
  -- document made in order; closing, saving and asking leave it alone, and so does opening it again.
  pub handle_all-text_after_all :
      (es : List Event) (t : Thread Server)
      → ((path : Bytes) (commands : List (Bytes × Bytes))
          → Returns (find_command_for_path j env path commands))
      → ((path text : Bytes) → Compiles env.wave path text)
      → CanSend t
      → (t' : Thread Server) × (handle_all j env es t ≡ some t')
        × ((path : Bytes) → text_at path t' ≡ text_after_all path es (text_at path t))
  unfolding handle_all text_after_all
  handle_all-text_after_all [] t finds ends c = (t, refl, λ path. refl)
  handle_all-text_after_all (e ∷ es) t finds ends c =
      let (u, goes, c', texts) = event-Goes e t finds ends c in
      let (t', runs, rest) = handle_all-text_after_all es u finds ends c' in
      (t', ground arith, λ path. rest path ∙ ap (text_after_all path es) (texts path))

module _ (j : Json) (env : Environment j) where
  -- A known document that is closed and then opened again, with whatever text, keeps the text and
  -- the tables that it had, where the search for its command returns and the loop over the
  -- preprocessor ends on the text that it is opened with.
  pub reopened-keeps :
      (item : TextDocumentItem) (f : P4File) (t : Thread Server)
      → lookup item.uri t.object.files ≡ some f
      → Returns (find_command_for_path j env item.uri t.object.commands)
      → Compiles env.wave item.uri item.text
      → (t' : Thread Server) × (handle_all j env (closed ∷ opened item ∷ []) t ≡ some t')
        × (lookup item.uri t'.object.files ≡ some f)
  unfolding handle_all handle on_ignored on_did_open
  reopened-keeps item f t known (found, e) compiles =
      let file = uncompiled env.tokens found.0 item.uri item.text in
      let made = new_file-Compiles env.tokens env.wave found.0 item.uri item.text compiles in
      (
        record t {
          object = record t.object {
            files = emplace item.uri file t.object.files;
            commands = found.1;
          };
        },
        ground (arith, e, made),
        ground (arith, lookup-emplace item.uri item.uri file t.object.files),
      )
