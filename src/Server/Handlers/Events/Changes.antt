-- ===== src/Server/Handlers/Events/Changes.antt =====
-- The calls that open and change a document.
use p4ls.Prelude.{
  inl, inr, equal_iff, lookup, assign, emplace, lookup-assign, lookup-emplace, Option-cases, arith,
}
use p4ls.Json.{Json}
use p4ls.Json.Decode.{Returns}
use p4ls.Protocol.Params.{TextDocumentItem, ParamsDidChange}
use p4ls.P4Unit.File.{Compiles, uncompiled, new_file-Compiles, change_source_code}
use p4ls.Dispatcher.{Thread}
use p4ls.Server.{Server}
use p4ls.Server.Commands.{Environment, find_command_for_path}
use p4ls.Server.Handlers.{on_did_change, on_did_open}
use p4ls.Server.Handlers.Events.{opened, changed, handle, CanSend, text_at, text_after, Goes}

module _ (j : Json) (env : Environment j) where
  pub opened-Goes :
      (item : TextDocumentItem) (t : Thread Server)
      → Returns (find_command_for_path j env item.uri t.object.commands)
      → Compiles env.wave item.uri item.text
      → CanSend t
      → Goes j env (opened item) t
  unfolding handle on_did_open text_at text_after
  opened-Goes item t (found, e) compiles c =
      let file = uncompiled env.tokens found.0 item.uri item.text in
      let made = new_file-Compiles env.tokens env.wave found.0 item.uri item.text compiles in
      (
        record t {
          object = record t.object {
            files = emplace item.uri file t.object.files;
            commands = found.1;
          };
        },
        ground (arith, e, made),
        c,
        λ path. ground (arith, lookup-emplace item.uri path file t.object.files),
      )

  pub changed-Goes :
      (params : ParamsDidChange) (t : Thread Server) → CanSend t → Goes j env (changed params) t
  unfolding handle on_did_change text_at text_after change_source_code
  changed-Goes params t c =
      let uri = params.text_document.uri in
      elim (Option-cases (lookup uri t.object.files)) [
        | inl e ↦ (t, ground arith, c, λ path. ground (arith, equal_iff uri path))
        | inr (f, e) ↦
            let file = change_source_code f params.content_changes in
            (
              record t { object = record t.object { files = assign uri file t.object.files } },
              ground arith,
              c,
              λ path.
                  ground (arith, equal_iff uri path, lookup-assign uri path file t.object.files),
            )
      ]
