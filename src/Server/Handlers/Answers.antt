-- ===== src/Server/Handlers/Answers.antt =====
-- What the methods answer, over all of them.
use p4ls.Prelude.{
  ◌&◌, All, ◌≡◌, refl, true, inl, inr, none, some, List, [], ◌∷◌, ◌++◌, Bytes, codes, c_str, equal,
  lookup, assign, lookup-assign, Bool-cases, arith,
}
use p4ls.Prelude.Int.{ℤ, negsuc}
use p4ls.Json.{Json}
use p4ls.Json.Decode.{ok}
use p4ls.Context.{get_value, request_id}
use p4ls.Protocol.Params.{
  ParamsTextDocumentPosition, ParamsInitialize, ParamsDidChange, ParamsDidSave, TextDocumentItem,
  set_did_change, set_did_open, set_did_save, set_document_symbol, set_initialize,
  set_text_document_position,
}
use p4ls.Dispatcher.{
  Action, Thread, Handler, Dispatcher, register_handler, reply, send, call_value, reply_error,
  method_not_found, is_jsonrpc, id_of, reply_text,
}
use p4ls.Dispatcher.Replies.{
  Quiet, registered-Quiet, QuietHandlers, notification-Quiet, unknown_method_error,
}
use p4ls.Server.{Server, new_server}
use p4ls.Server.Commands.{Environment}
use p4ls.Server.Stubs.{on_ignored, on_null, on_position_null}
use p4ls.Server.Handlers.{
  on_exit, on_initialize, on_did_change, on_did_open, on_did_save, on_document_highlight,
  on_document_symbol, on_hover, protocol_handlers, register_all, server_dispatcher, plain,
  at_position,
}

module _ {ℓ κ} {V : Type ℓ} (P : Bytes × V → Type κ) where
  assign-All :
      (k : Bytes) (v : V) (m : List (Bytes × V))
      → All P m
      → ((k' : Bytes) → P (k', v))
      → All P (assign k v m)
  unfolding assign
  assign-All k v [] a p = (p k, tt)
  assign-All k v ((k', w) ∷ m) a p = elim (Bool-cases (equal k' k)) [
    | inl e ↦ rw e (p k, a.1)
    | inr e ↦ rw e (a.0, assign-All k v m a.1 p)
  ]

module _ (j : Json) (env : Environment j) where
  on_ignored-Quiet : (u : Unit {0}) → Quiet j Server (on_ignored j env u)
  unfolding on_ignored
  on_ignored-Quiet u t t' h e = ground arith

  on_null-Quiet : (u : Unit {0}) → Quiet j Server (on_null j env u)
  unfolding on_null reply send
  on_null-Quiet u t t' h e = ground arith

  on_position_null-Quiet :
      (p : ParamsTextDocumentPosition) → Quiet j Server (on_position_null j env p)
  unfolding on_position_null reply send
  on_position_null-Quiet p t t' h e = ground arith

  on_exit-Quiet : (u : Unit {0}) → Quiet j Server (on_exit j env u)
  unfolding on_exit
  on_exit-Quiet u t t' h e = ground arith

  on_initialize-Quiet : (p : ParamsInitialize) → Quiet j Server (on_initialize j env p)
  unfolding on_initialize reply send
  on_initialize-Quiet p t t' h e = ground arith

  on_did_change-Quiet : (p : ParamsDidChange) → Quiet j Server (on_did_change j env p)
  unfolding on_did_change
  on_did_change-Quiet p t t' h e = ground arith

  on_did_open-Quiet : (p : TextDocumentItem) → Quiet j Server (on_did_open j env p)
  unfolding on_did_open
  on_did_open-Quiet p t t' h e = ground arith

  on_did_save-Quiet : (p : ParamsDidSave) → Quiet j Server (on_did_save j env p)
  unfolding on_did_save
  on_did_save-Quiet p t t' h e = ground arith

  on_hover-Quiet : (p : ParamsTextDocumentPosition) → Quiet j Server (on_hover j env p)
  unfolding on_hover reply send
  on_hover-Quiet p t t' h e = ground arith

  on_document_highlight-Quiet :
      (p : ParamsTextDocumentPosition) → Quiet j Server (on_document_highlight j env p)
  unfolding on_document_highlight reply send
  on_document_highlight-Quiet p t t' h e = ground arith

  on_document_symbol-Quiet : (p : Bytes) → Quiet j Server (on_document_symbol j env p)
  unfolding on_document_symbol reply send
  on_document_symbol-Quiet p t t' h e = ground arith

  reply_error-Quiet :
      Quiet j Server (reply_error j Server method_not_found (codes "method not found"))
  unfolding reply_error send
  reply_error-Quiet t t' h e = ground arith

  plain-Quiet :
      {act : Unit {0} → Action Server}
      → ((u : Unit {0}) → Quiet j Server (act u))
      → (v : j.Value) → Quiet j Server (plain j env (λ _. ok tt) act v)
  plain-Quiet {act} q = registered-Quiet j Server (λ _. ok tt) act q

  at_position-Quiet :
      {act : ParamsTextDocumentPosition → Action Server}
      → ((p : ParamsTextDocumentPosition) → Quiet j Server (act p))
      → (v : j.Value) → Quiet j Server (at_position j env act v)
  at_position-Quiet {act} q = registered-Quiet j Server (set_text_document_position j) act q

  protocol_handlers-Quiet : QuietHandlers j Server (protocol_handlers j env)
  unfolding protocol_handlers
  protocol_handlers-Quiet =
      plain-Quiet on_exit-Quiet
      & registered-Quiet j Server (set_initialize j) (on_initialize j env) on_initialize-Quiet
      & plain-Quiet on_null-Quiet
      & plain-Quiet on_ignored-Quiet
      & plain-Quiet on_null-Quiet
      & plain-Quiet on_null-Quiet
      & plain-Quiet on_null-Quiet
      & at_position-Quiet on_position_null-Quiet
      & registered-Quiet j Server (set_did_change j) (on_did_change j env) on_did_change-Quiet
      & plain-Quiet on_ignored-Quiet
      & registered-Quiet j Server (set_did_open j) (on_did_open j env) on_did_open-Quiet
      & registered-Quiet j Server (set_did_save j) (on_did_save j env) on_did_save-Quiet
      & at_position-Quiet on_document_highlight-Quiet
      & registered-Quiet j Server (set_document_symbol j) (on_document_symbol j env)
          on_document_symbol-Quiet
      & plain-Quiet on_null-Quiet
      & at_position-Quiet on_hover-Quiet
      & at_position-Quiet on_position_null-Quiet
      & plain-Quiet on_null-Quiet
      & plain-Quiet on_null-Quiet
      & plain-Quiet on_null-Quiet
      & at_position-Quiet on_position_null-Quiet
      & plain-Quiet on_ignored-Quiet
      & at_position-Quiet on_position_null-Quiet
      & plain-Quiet on_ignored-Quiet
      & plain-Quiet on_ignored-Quiet
      & plain-Quiet on_ignored-Quiet
      & tt

  register_all-Quiet :
      (handlers : List (Bytes × Handler j Server)) (d : Dispatcher j Server)
      → QuietHandlers j Server handlers
      → QuietHandlers j Server d.handlers
      → QuietHandlers j Server (register_all j env handlers d).handlers
  unfolding register_all register_handler
  register_all-Quiet [] d q e = e
  register_all-Quiet ((m, h) ∷ rest) d q e =
      register_all-Quiet rest (register_handler j Server m h d) q.1
        (assign-All (λ x. (v : j.Value) → Quiet j Server (x.1 v)) m h d.handlers e (λ _. q.0))

  register_all-error :
      (handlers : List (Bytes × Handler j Server)) (d : Dispatcher j Server)
      → (register_all j env handlers d).error_handler ≡ d.error_handler
  unfolding register_all register_handler
  register_all-error [] d = refl
  register_all-error ((m, h) ∷ rest) d = register_all-error rest (register_handler j Server m h d)

  -- What the registration leaves of the list: the handlers of the list, first for first.
  not_registered :
      (name : Bytes) (handlers : List (Bytes × Handler j Server)) (d : Dispatcher j Server)
      → lookup name handlers ≡ none
      → lookup name (register_all j env handlers d).handlers ≡ lookup name d.handlers
  unfolding register_all register_handler lookup
  not_registered name [] d e = refl
  not_registered name ((m, h) ∷ rest) d e = ground (
    arith,
    not_registered name rest (register_handler j Server m h d),
    lookup-assign m name h d.handlers,
  )

  server_dispatcher-error :
      (u : j.Value)
      → (server_dispatcher j env).error_handler u
        ≡ reply_error j Server method_not_found (codes "method not found")
  unfolding server_dispatcher register_all protocol_handlers register_handler
  server_dispatcher-error u = refl

  server_dispatcher-unknown :
      (name : Bytes)
      → lookup name (protocol_handlers j env) ≡ none
      → lookup name (server_dispatcher j env).handlers ≡ none
  unfolding server_dispatcher lookup
  server_dispatcher-unknown name e = not_registered name (protocol_handlers j env) _ e

  no_references : lookup (codes "textDocument/references") (protocol_handlers j env) ≡ none
  unfolding lookup protocol_handlers equal
  no_references = refl

  -- A message to the server without an id, called outside of a request, is answered by nothing,
  -- whatever its method, and leaves the thread in the context that it found, if the process goes on.
  pub server_notification-Quiet :
      (msg : j.Value) (t t' : Thread Server)
      → j.find_member msg (codes "id") ≡ none
      → get_value request_id t.current ≡ none
      → call_value j Server (server_dispatcher j env) msg t ≡ some t'
      → (t'.output ≡ t.output) × (t'.current ≡ t.current)
  unfolding server_dispatcher
  server_notification-Quiet msg t t' no_id h e =
      notification-Quiet j Server (server_dispatcher j env)
        (register_all-Quiet (protocol_handlers j env) _ protocol_handlers-Quiet tt)
        (λ v. rw (register_all-error (protocol_handlers j env) _) reply_error-Quiet) msg no_id t t'
        h e

  -- The server announces that it finds references; each such request, with an id that is read as
  -- a number, is answered by the error that there is no such method, and nothing else happens.
  pub references_refused :
      (msg v m : j.Value) (id : ℤ) (t : Thread Server)
      → j.is_object msg ≡ true
      → is_jsonrpc j msg ≡ true
      → j.find_member msg (codes "id") ≡ some v
      → id_of j v ≡ some id
      → j.find_member msg (codes "method") ≡ some m
      → j.get_string m ≡ some (codes "textDocument/references")
      → (new_server.capabilities.references_provider ≡ some true)
        × (call_value j Server (server_dispatcher j env) msg t
            ≡ some (record t {
              output =
                  t.output
                  ++ reply_text j
                      (codes "error")
                      (j.of_object (
                        (codes "code", j.of_int (negsuc 32600))
                        ∷ (codes "message", j.of_string (codes "method not found"))
                        ∷ []))
                      id;
            }))
  unfolding new_server c_str
  references_refused msg v m id t object version has_id id_is has_method string = (
    refl,
    unknown_method_error j Server (server_dispatcher j env) msg v m id
        (codes "textDocument/references") t server_dispatcher-error object version has_id id_is
        has_method string
        (server_dispatcher-unknown (codes "textDocument/references") no_references),
  )
