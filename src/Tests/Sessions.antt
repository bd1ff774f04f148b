-- ===== src/Tests/Sessions.antt =====
-- The server through whole sessions.
use p4ls.Prelude.{
  ◌≡◌, refl, inl, inr, true, false, none, some, List, [], ◌∷◌, ◌++◌, Bytes, codes, lookup, c_str,
  equal, assign, Option-cases, arith,
}
use p4ls.Prelude.Int.{pos, negsuc}
use p4ls.Json.Decode.{Returns}
use p4ls.Protocol.Params.{TextDocumentItem, ParamsDidChange}
use p4ls.P4Unit.File.{P4File}
use p4ls.Context.{get_value, request_id, derive, swap_current}
use p4ls.Dispatcher.{
  Thread, call, is_jsonrpc, id_of, call_value, reply_text, with_id, register_handler, dispatch,
  invoke, scoped, registered,
}
use p4ls.Server.{Server, new_server}
use p4ls.Server.Commands.{find_command_for_path, search_parents}
use p4ls.Server.Handlers.{server_dispatcher, register_all, protocol_handlers, on_exit}
use p4ls.Server.Handlers.Answers.{server_notification-Quiet, references_refused}
use p4ls.Server.Handlers.Events.{
  Event, opened, changed, closed, handle_all, text_at, text_after_all,
}
use p4ls.Server.Handlers.Documents.{handle_all-text_after_all, reopened-keeps}
use p4ls.Transport.Framing.{read_message-frame}
use p4ls.Transport.Loop.{
  Running, Steps, stays, then_step, posts, InOrder, call_all, frames, Steps-InOrder,
}
use p4ls.Transport.Progress.{Steps-finish}
use p4ls.Tests.Sample.{
  Sample, no_members, number, text, members, member, json, environment, exit_text, exit_message,
}

abbrev start : Thread Server
start = record { current = []; output = []; object = new_server }

start_quiet : get_value request_id [] ≡ none
unfolding get_value
start_quiet = refl

finds :
    (path : Bytes) (commands : List (Bytes × Bytes))
    → Returns (find_command_for_path json environment path commands)
unfolding find_command_for_path search_parents
finds path commands = elim (Option-cases (lookup path commands)) [
  | inl e ↦ (([], commands), ground arith)
  | inr (command, e) ↦ ((command, commands), ground arith)
]

abbrev item : TextDocumentItem
item = record { uri = codes "/a.p4"; language_id = codes "p4"; version = pos 1; text = codes "bit" }

abbrev all_new : ParamsDidChange
all_new = record {
  text_document = record { uri = codes "/a.p4"; version = none };
  content_changes = record { range = none; range_length = none; text = codes "int" } ∷ [];
}

abbrev session : List Event
session = opened item ∷ changed all_new ∷ closed ∷ opened item ∷ []

handle_all-text_after_all_example :
    (t' : Thread Server) × (handle_all json environment session start ≡ some t')
    × ((path : Bytes) → text_at path t' ≡ text_after_all path session (text_at path start))
handle_all-text_after_all_example =
    handle_all-text_after_all json environment session start finds (λ p s. ([], refl))
      (inl start_quiet)

abbrev file : P4File
file = record {
  argv = [];
  unit_path = codes "/a.p4";
  source_code = codes "int";
  symbols = [];
  definitions = [];
  locations = [];
  highlights = [];
  indexes = [];
  changed = true;
}

abbrev known : Thread Server
known = record start { object = record new_server { files = (codes "/a.p4", file) ∷ [] } }

known_lem : lookup (codes "/a.p4") ((codes "/a.p4", file) ∷ []) ≡ some file
unfolding lookup equal
known_lem = refl

reopened-keeps_example :
    (t' : Thread Server) × (handle_all json environment (closed ∷ opened item ∷ []) known ≡ some t')
    × (lookup (codes "/a.p4") t'.object.files ≡ some file)
reopened-keeps_example =
    reopened-keeps json environment item file known known_lem
      (finds (codes "/a.p4") known.object.commands) ([], refl)

abbrev stopped : Thread Server
stopped = record start { object = record new_server { is_done = true } }

exit_runs :
    call_value json Server (server_dispatcher json environment) exit_message start ≡ some stopped
unfolding call_value with_id server_dispatcher register_all protocol_handlers register_handler
    dispatch invoke scoped swap_current derive get_value lookup assign registered on_exit c_str
    equal is_jsonrpc new_server
exit_runs = refl

server_notification-Quiet_example :
    (stopped.output ≡ start.output) × (stopped.current ≡ start.current)
unfolding equal
server_notification-Quiet_example =
    server_notification-Quiet json environment exit_message start stopped refl start_quiet exit_runs

-- { "jsonrpc": "2.0", "id": 4, "method": "textDocument/references" }
abbrev references : Sample
references = members (
    member (codes "jsonrpc") (text (codes "2.0")) (
      member (codes "id") (number (pos 4))
        (member (codes "method") (text (codes "textDocument/references")) no_members)))

references-is_jsonrpc : is_jsonrpc json references ≡ true
unfolding is_jsonrpc c_str equal
references-is_jsonrpc = refl

references-id_of : id_of json (number (pos 4)) ≡ some (pos 4)
unfolding id_of
references-id_of = refl

references_refused_example :
    (new_server.capabilities.references_provider ≡ some true)
    × (call_value json Server (server_dispatcher json environment) references start
        ≡ some (record start {
          output =
              []
              ++ reply_text json
                  (codes "error")
                  (json.of_object (
                    (codes "code", json.of_int (negsuc 32600))
                    ∷ (codes "message", json.of_string (codes "method not found"))
                    ∷ []))
                  (pos 4);
        }))
unfolding equal
references_refused_example =
    references_refused json environment references (number (pos 4))
      (text (codes "textDocument/references")) (pos 4) start refl references-is_jsonrpc refl
      references-id_of refl refl

-- One message is posted; nothing has been handled yet.
abbrev posted : Running
posted = record {
  stream = record { rest = frames []; good = true; eintr = false };
  queue = exit_text ∷ [];
  worker = start;
}

one_post :
    Steps json environment
      (record {
        stream = record { rest = frames (exit_text ∷ []); good = true; eintr = false };
        queue = [];
        worker = start;
      })
      posted
unfolding new_server
one_post = then_step (stays _) (
    posts _ exit_text (record { rest = []; good = true; eintr = false }) refl refl
      (read_message-frame false exit_text [] (omega arith) (omega arith)))

Steps-InOrder_example : InOrder json environment false (exit_text ∷ []) start posted
Steps-InOrder_example =
    Steps-InOrder json environment false (exit_text ∷ []) start posted
      ((omega arith, omega arith), tt) one_post

exit_call : call json Server (server_dispatcher json environment) exit_text start ≡ some stopped
unfolding call equal c_str call_value
exit_call = exit_runs

all_handled : call_all json environment (exit_text ∷ []) start ≡ some stopped
unfolding call_all
all_handled = rw (call_all, exit_call) refl

Steps-finish_example : Steps json environment posted (record {
  stream = record { rest = []; good = true; eintr = false };
  queue = [];
  worker = stopped;
})
unfolding new_server
Steps-finish_example =
    Steps-finish json environment false (exit_text ∷ []) start stopped posted
      ((omega arith, omega arith), tt) all_handled one_post refl
