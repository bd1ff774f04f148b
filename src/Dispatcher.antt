-- ===== src/Dispatcher.antt =====
-- server/lsp/dispatcher.h and dispatcher.cpp: from the text of a message to the handler of its
-- method, and from a result to the text of a reply. The log is not modelled.
pub mod Replies
use p4ls.Prelude.{
  ℕ, ◌≡◌, Bool, true, false, ◌&&◌, Option, none, some, List, [], ◌∷◌, ◌++◌, Bytes, codes, length,
  equal, lookup, assign, c_str, if◌then◌else◌,
}
use p4ls.Prelude.Int.{ℤ, pos, negsuc}
use p4ls.Prelude.Decimal.{to_string, stoi}
use p4ls.Json.{Json}
use p4ls.Json.Decode.{Decode, ok, refused, fault}
use p4ls.Context.{
  Context, Anything, int_value, stream_value, get_value, derive, request_id, request_output_stream,
  swap_current,
}

-- server/lsp/protocol.h
pub data ErrorCodes : Type 0 where
  parse_error invalid_request method_not_found invalid_params internal_error : ErrorCodes
  server_error_start server_error_end server_not_initialized unknown_error_code : ErrorCodes
  request_cancelled : ErrorCodes

unfoldable pub error_to_int : ErrorCodes → ℤ
error_to_int parse_error = negsuc 32699
error_to_int invalid_request = negsuc 32599
error_to_int method_not_found = negsuc 32600
error_to_int invalid_params = negsuc 32601
error_to_int internal_error = negsuc 32602
error_to_int server_error_start = negsuc 32098
error_to_int server_error_end = negsuc 31999
error_to_int server_not_initialized = negsuc 32001
error_to_int unknown_error_code = negsuc 32000
error_to_int request_cancelled = negsuc 32799

-- The thread that runs the handlers: its current context, what it has written to the one output
-- stream, and the object `S` whose methods are called.
pub record Thread (S : Type 0) : Type 0 where
  pub current : Context
  pub output : Bytes
  pub object : S

-- `none`: the process ends, by a failed assertion or an exception that nobody catches.
abbrev pub Action : Type 0 → Type 0
Action S = Thread S → Option (Thread S)

-- `Scoped_context` around `body`: the constructor swaps the derived context in, and the destructor
-- swaps the previous one back.
unfoldable pub scoped : {S : Type 0} → ℕ → Anything → Action S → Action S
scoped key value body t =
    let (current, previous) = swap_current (derive key value t.current) t.current in
    elim (body (record t { current = current })) [
      | none ↦ none
      | some t' ↦ some (record t' { current = (swap_current previous t'.current).0 })
    ]

-- The address of the output stream.
abbrev pub output_stream : ℕ
output_stream = 0

unfoldable pub frame : Bytes → Bytes
frame content =
    codes "Content-Length: " ++ (to_string (length content) ++ (codes "\r\n\r\n" ++ content))

module _ (j : Json) where
  open j use {Value, write, find_member, get_string, get_int, of_int, of_string, of_object}

  -- The text of a reply.
  unfoldable pub reply_text : Bytes → Value → ℤ → Bytes
  reply_text field result id = frame (
      c_str (
        write (
          of_object (
            (codes "jsonrpc", of_string (codes "2.0"))
            ∷ (codes "id", of_int id)
            ∷ (field, result)
            ∷ []))))

  -- `it->value.IsString() ? std::stoi(it->value.GetString()) : it->value.GetInt()`
  unfoldable pub id_of : Value → Option ℤ
  id_of v = elim (get_string v) [ some s ↦ stoi (c_str s) | none ↦ get_int v ]

  -- `"jsonrpc"` is a string and, up to its first NUL, the version.
  unfoldable pub is_jsonrpc : Value → Bool
  is_jsonrpc msg = elim (find_member msg (codes "jsonrpc")) [
    | none ↦ false
    | some v ↦ elim (get_string v) [ none ↦ false | some s ↦ equal (c_str s) (codes "2.0") ]
  ]

module _ (j : Json) (S : Type 0) where
  open j use {
    Value, parse, is_object, is_null, find_member, get_string, of_int, of_string, of_object,
  }

  abbrev pub Handler : Type 0
  Handler = Value → Action S

  pub record Dispatcher : Type 0 where
    pub handlers : List (Bytes × Handler)
    pub error_handler : Handler

  unfoldable pub register_handler : Bytes → Handler → Dispatcher → Dispatcher
  register_handler method handler d = record d { handlers = assign method handler d.handlers }

  -- A value of the other type is never stored under these keys.
  unfoldable pub send : Bytes → Value → Action S
  send field result t = elim (get_value request_id t.current) [
    | none ↦ some t
    | some (stream_value s) ↦ none
    | some (int_value id) ↦ elim (get_value request_output_stream t.current) [
      | none ↦ none
      | some (int_value n) ↦ none
      | some (stream_value s) ↦
          some (record t { output = t.output ++ reply_text j field result id })
    ]
  ]

  unfoldable pub reply : Value → Action S
  reply result = send (codes "result") result

  unfoldable pub reply_error : ErrorCodes → Bytes → Action S
  reply_error code msg = send (codes "error") (
      of_object (
        (codes "code", of_int (error_to_int code)) ∷ (codes "message", of_string (c_str msg)) ∷ []))

  -- The lambda that `registration_helper` makes of a decoder and a method of the protocol: a message
  -- whose parameters cannot be set is logged and dropped.
  unfoldable pub registered : {P : Type 0} → (Value → Decode P) → (P → Action S) → Handler
  registered set_params handler json t = elim (set_params json) [
    | fault ↦ none
    | refused ↦ some t
    | ok params ↦ handler params t
  ]

  -- The call of the handler with its parameters: without `params`, or with null, an empty object;
  -- anything else has to be an object.
  unfoldable pub invoke : Handler → Value → Action S
  invoke handler msg t = elim (find_member msg (codes "params")) [
    | none ↦ handler (of_object []) t
    | some params ↦
        if is_null params
        then handler (of_object []) t
        else if is_object params
        then handler params t
        else none
  ]

  unfoldable pub dispatch : Dispatcher → Value → Bytes → Action S
  dispatch d msg method t = elim (lookup method d.handlers) [
    | some handler ↦ invoke handler msg t
    | none ↦ d.error_handler (of_object []) t
  ]

  -- From the `method` member on, with the id that was read before it.
  unfoldable pub with_id : Dispatcher → Value → Option ℤ → Action S
  with_id d msg id t =
      let method : Option Bytes = elim (find_member msg (codes "method")) [
        | none ↦ none
        | some m ↦ get_string m
      ] in
      elim method [
        | none ↦ some t
        | some name ↦
            let run = dispatch d msg (c_str name) in
            scoped request_output_stream (stream_value output_stream)
              (elim id [ none ↦ run | some n ↦ scoped request_id (int_value n) run ]) t
      ]

  -- `Dispatcher::call` on a parsed message.
  unfoldable pub call_value : Dispatcher → Value → Action S
  call_value d msg t =
      if is_object msg
      then (if is_jsonrpc j msg
          then elim (find_member msg (codes "id")) [
            | none ↦ with_id d msg none t
            | some v ↦ elim (id_of j v) [ none ↦ none | some n ↦ with_id d msg (some n) t ]
          ]
          else some t)
      else none

  -- `Dispatcher::call`: a text that is no JSON is logged and dropped.
  unfoldable pub call : Dispatcher → Bytes → Action S
  call d content t = elim (parse (c_str content)) [ none ↦ some t | some msg ↦ call_value d msg t ]
