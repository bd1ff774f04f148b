-- ===== src/Tests/Messages.antt =====
-- Messages of the protocol, written and read.
use p4ls.Prelude.{◌≡◌, ◌↔◌, refl, true, some, [], ◌∷◌, ◌++◌, codes, c_str, equal, lookup, arith}
use p4ls.Prelude.Int.{pos, negsuc}
use p4ls.Json.Decode.{ok, Returns}
use p4ls.Protocol.Capabilities.{decode_client_capabilities}
use p4ls.Protocol.Capabilities.Client.{ClientCapabilitiesConforms, decode_client_capabilities_iff}
use p4ls.Protocol.Params.{ParamsTextDocumentPosition, set_did_change, set_did_open}
use p4ls.Protocol.Params.Client.{
  set_did_change-write, set_did_open-write, write_did_change, Writable,
}
use p4ls.P4Unit.Edit.{TextDocumentContentChangeEvent}
use p4ls.Dispatcher.{
  Thread, Dispatcher, is_jsonrpc, id_of, method_not_found, reply_error, call_value, reply_text,
  frame,
}
use p4ls.Dispatcher.Replies.{unknown_method_error}
use p4ls.Transport.{InputStream, read_message, message}
use p4ls.Transport.Framing.{read_message-frame}
use p4ls.Tests.Sample.{
  Sample, no_members, boolean, number, text, members, member, json, json-IsJson,
}

abbrev position : ParamsTextDocumentPosition
position = record { text_document = codes "/a.p4"; position = record { line = 1; character = 2 } }

abbrev event : TextDocumentContentChangeEvent
event = record {
  range = some (record {
    start = record { line = 0; character = 1 };
    finish = record { line = 0; character = 3 };
  });
  range_length = some 2;
  text = codes "xy";
}

event-Writable : Writable json json-IsJson event
event-Writable = record {
  text = refl;
  range = ((omega arith, omega arith), (omega arith, omega arith));
  range_length = omega arith;
}

set_did_change-write_example :
    set_did_change json (write_did_change json json-IsJson (codes "/a.p4") (some 7) (event ∷ []))
    ≡ ok (record {
      text_document = record { uri = codes "/a.p4"; version = some (pos 7) };
      content_changes = event ∷ [];
    })
set_did_change-write_example =
    set_did_change-write json json-IsJson (codes "/a.p4") (some 7) (event ∷ []) refl (omega arith)
      (event-Writable, tt)

set_did_open-write_example :
    set_did_open json (
      json.of_object (
        (
          codes "textDocument",
          json.of_object (
              (codes "uri", json.of_string (codes "file://" ++ codes "/a.p4"))
              ∷ (codes "languageId", json.of_string (codes "p4"))
              ∷ (codes "version", json.of_int (pos 1))
              ∷ (codes "text", json.of_string (codes "bit"))
              ∷ []),
        )
        ∷ []))
    ≡ ok (record {
      uri = codes "/a.p4";
      language_id = codes "p4";
      version = pos 1;
      text = codes "bit";
    })
set_did_open-write_example =
    set_did_open-write json json-IsJson (codes "/a.p4") (codes "p4") (codes "bit") 1 refl refl refl
      (omega arith)

-- { "workspace": { "applyEdit": true } }
abbrev capabilities : Sample
capabilities = members (
    member (codes "workspace") (members (member (codes "applyEdit") (boolean true) no_members))
      no_members)

decode_client_capabilities_iff_example :
    Returns (decode_client_capabilities json capabilities)
    ↔ ClientCapabilitiesConforms json capabilities
decode_client_capabilities_iff_example = decode_client_capabilities_iff json capabilities

-- { "jsonrpc": "2.0", "id": 4, "method": "no" }
abbrev unknown : Sample
unknown = members (
    member (codes "jsonrpc") (text (codes "2.0")) (
      member (codes "id") (number (pos 4))
        (member (codes "method") (text (codes "no")) no_members)))

abbrev nothing_registered : Dispatcher json Unit
nothing_registered = record {
  handlers = [];
  error_handler = λ v. reply_error json Unit method_not_found (codes "method not found");
}

abbrev idle : Thread Unit
idle = record { current = []; output = []; object = tt }

unknown-is_jsonrpc : is_jsonrpc json unknown ≡ true
unfolding is_jsonrpc c_str equal
unknown-is_jsonrpc = refl

unknown-id_of : id_of json (number (pos 4)) ≡ some (pos 4)
unfolding id_of
unknown-id_of = refl

unknown_method_error_example :
    call_value json Unit nothing_registered unknown idle
    ≡ some (record idle {
      output =
          []
          ++ reply_text json
              (codes "error")
              (json.of_object (
                (codes "code", json.of_int (negsuc 32600))
                ∷ (codes "message", json.of_string (codes "method not found"))
                ∷ []))
              (pos 4);
    })
unfolding equal lookup
unknown_method_error_example =
    unknown_method_error json Unit nothing_registered unknown (number (pos 4)) (text (codes "no"))
      (pos 4) (codes "no") idle (λ u. refl) refl unknown-is_jsonrpc refl unknown-id_of refl refl
      refl

abbrev sent : InputStream
sent = record { rest = frame (codes "{}") ++ codes "Content"; good = true; eintr = true }

read_message-frame_example :
    read_message sent
    ≡ message (codes "{}") (record { rest = codes "Content"; good = true; eintr = true })
read_message-frame_example =
    read_message-frame true (codes "{}") (codes "Content") (omega arith) (omega arith)
