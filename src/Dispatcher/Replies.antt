-- ===== src/Dispatcher/Replies.antt =====
-- Which replies a message gets: its id, the quiet of notifications, and the context afterwards.
use p4ls.Prelude.{
  All, equal, subst, ◌≡◌, refl, ◌&&◌, true, ◌⊎◌, inl, inr, Option, none, some, List, [], ◌∷◌, ◌++◌,
  Bytes, codes, lookup, c_str, Bool-cases, Option-cases, arith,
}
use p4ls.Prelude.Int.{ℤ, negsuc}
use p4ls.Json.{Json}
use p4ls.Json.Decode.{Decode, ok, refused, fault}
use p4ls.Context.{
  Context, Anything, int_value, stream_value, get_value, derive, request_id, request_output_stream,
  swap_current,
}
use p4ls.Dispatcher.{
  Thread, Action, scoped, output_stream, Handler, Dispatcher, send, registered, invoke, dispatch,
  with_id, is_jsonrpc, id_of, method_not_found, error_to_int, reply_error, call_value, reply_text,
}

-- The context that a request with id `n` runs in.
abbrev pub request_context : ℤ → Context → Context
request_context n c =
    derive request_id (int_value n) (derive request_output_stream (stream_value output_stream) c)

Decode-cases : {A : Type 0} (m : Decode A) → (m ≡ fault) ⊎ ((m ≡ refused) ⊎ ((a : A) × (m ≡ ok a)))
Decode-cases fault = inl refl
Decode-cases refused = inr (inl refl)
Decode-cases (ok a) = inr (inr (a, refl))

module _ (j : Json) (S : Type 0) where
  open j use {Value, is_object, is_null, find_member, get_string, of_object}

  -- No request is in work.
  abbrev pub NoRequest : Thread S → Type 0
  NoRequest t = get_value request_id t.current ≡ none

  -- Without a request the action writes nothing, and leaves the context as it was.
  abbrev pub Quiet : Action S → Type 0
  Quiet act =
      (t t' : Thread S)
      → NoRequest t
      → act t ≡ some t'
      → (t'.output ≡ t.output) × (t'.current ≡ t.current)

  pub send-Quiet : (field : Bytes) (result : Value) → Quiet (send j S field result)
  unfolding send
  send-Quiet field result t t' h e = ground arith

  pub registered-Quiet :
      {P : Type 0} (set_params : Value → Decode P) (handler : P → Action S)
      → ((p : P) → Quiet (handler p))
      → (v : Value) → Quiet (registered j S set_params handler v)
  unfolding registered
  registered-Quiet set_params handler q v t t' h e = elim (Decode-cases (set_params v)) [
    | inl f ↦ absurd (ground arith)
    | inr (inl f) ↦ ground arith
    | inr (inr (p, f)) ↦ q p t t' h (ground arith)
  ]

  scoped-Quiet :
      (act : Action S) (value : Anything)
      → Quiet act
      → Quiet (scoped request_output_stream value act)
  unfolding scoped swap_current get_value derive
  scoped-Quiet act value q t t' h e =
      let inner = record t { current = derive request_output_stream value t.current } in
      elim (Option-cases (act inner)) [
        | inl f ↦ absurd (ground arith)
        | inr (u, f) ↦ ground (arith, q inner u h f)
      ]

  -- Every handler is quiet.
  abbrev pub QuietHandlers : List (Bytes × Handler j S) → Type 0
  QuietHandlers handlers = All (λ e. (v : Value) → Quiet (e.1 v)) handlers

  lookup-Quiet :
      (name : Bytes) (handlers : List (Bytes × Handler j S)) {handler : Handler j S}
      → QuietHandlers handlers
      → lookup name handlers ≡ some handler
      → (v : Value) → Quiet (handler v)
  unfolding lookup
  lookup-Quiet name [] q e = cc
  lookup-Quiet name ((k, h) ∷ rest) {handler} q e = elim (Bool-cases (equal k name)) [
    | inl same ↦
        let found : h ≡ handler = ground arith in subst (λ g. (v : Value) → Quiet (g v)) found q.0
    | inr other ↦ lookup-Quiet name rest q.1 (ground arith)
  ]

  abbrev method_of : Value → Option Bytes
  method_of msg = elim (find_member msg (codes "method")) [ none ↦ none | some m ↦ get_string m ]

  invoke-Quiet :
      (handler : Handler j S) (msg : Value)
      → ((v : Value) → Quiet (handler v))
      → Quiet (invoke j S handler msg)
  unfolding invoke
  invoke-Quiet handler msg q t t' h e = elim (Option-cases (find_member msg (codes "params"))) [
    | inl f ↦ q (of_object []) t t' h (ground arith)
    | inr (params, f) ↦ elim (Bool-cases (is_null params)) [
      | inl n ↦ q (of_object []) t t' h (ground arith)
      | inr n ↦ elim (Bool-cases (is_object params)) [
        | inl o ↦ q params t t' h (ground arith)
        | inr o ↦ absurd (ground arith)
      ]
    ]
  ]

  module _ (d : Dispatcher j S) (quiet : QuietHandlers d.handlers)
      (quiet_error : (v : Value) → Quiet (d.error_handler v)) where
    dispatch-Quiet : (msg : Value) (name : Bytes) → Quiet (dispatch j S d msg name)
    unfolding dispatch
    dispatch-Quiet msg name t t' h e = elim (Option-cases (lookup name d.handlers)) [
      | inl f ↦ quiet_error (of_object []) t t' h (ground arith)
      | inr (handler, f) ↦
          invoke-Quiet handler msg (lookup-Quiet name d.handlers quiet f) t t' h (ground arith)
    ]

    with_id-Quiet : (msg : Value) → Quiet (with_id j S d msg none)
    unfolding with_id
    with_id-Quiet msg t t' h e = elim (Option-cases (method_of msg)) [
      | inl f ↦ ground arith
      | inr (name, f) ↦
          scoped-Quiet (dispatch j S d msg (c_str name)) (stream_value output_stream)
            (dispatch-Quiet msg (c_str name)) t t' h (ground arith)
    ]

    -- A message without an id is answered by nothing, whatever its method does, and leaves the
    -- thread in the context that it found.
    pub notification-Quiet :
        (msg : Value) → find_member msg (codes "id") ≡ none → Quiet (call_value j S d msg)
    unfolding call_value
    notification-Quiet msg no_id t t' h e = elim (Bool-cases (is_object msg && is_jsonrpc j msg)) [
      | inl valid ↦ with_id-Quiet msg t t' h (ground arith)
      | inr invalid ↦ ground arith
    ]

-- Where the error handler replies that there is no such method, as the server's does, a request for
-- an unknown method, with an id that is read as a number, gets exactly one reply, that error with
-- its id; nothing else of the thread changes.
pub unknown_method_error :
    (j : Json) (S : Type 0) (d : Dispatcher j S) (msg v m : j.Value) (id : ℤ) (name : Bytes)
    (t : Thread S)
    → ((u : j.Value)
        → d.error_handler u ≡ reply_error j S method_not_found (codes "method not found"))
    → j.is_object msg ≡ true
    → is_jsonrpc j msg ≡ true
    → j.find_member msg (codes "id") ≡ some v
    → id_of j v ≡ some id
    → j.find_member msg (codes "method") ≡ some m
    → j.get_string m ≡ some name
    → lookup (c_str name) d.handlers ≡ none
    → call_value j S d msg t
      ≡ some (record t {
        output =
            t.output
            ++ reply_text j
                (codes "error")
                (j.of_object (
                  (codes "code", j.of_int (negsuc 32600))
                  ∷ (codes "message", j.of_string (codes "method not found"))
                  ∷ []))
                id;
      })
unfolding call_value with_id dispatch scoped swap_current reply_error send get_value derive
    error_to_int c_str
unknown_method_error j S d msg v m id name t error_handler object version has_id id_is has_method
      string unknown =
    ground (arith, error_handler (j.of_object []))
