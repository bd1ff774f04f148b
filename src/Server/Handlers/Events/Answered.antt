-- ===== src/Server/Handlers/Events/Answered.antt =====
-- The calls that ask about a document: hovers, highlights and symbols.
use p4ls.Prelude.{
  ◌≡◌, refl, sym, subst, ◌++◌, map, ◌∙◌, ◌⊎◌, inl, inr, Option, none, some, List, [], Bytes, codes,
  equal_iff, lookup, assign, lookup-assign, Option-cases, arith,
}
use p4ls.Prelude.Int.{ℤ}
use p4ls.Json.{Json}
use p4ls.Context.{int_value, stream_value, get_value, request_id, request_output_stream}
use p4ls.Protocol.Params.{ParamsTextDocumentPosition}
use p4ls.P4Unit.File.{P4File, Compiles, get_symbols-Compiles, get_hover, get_highlights}
use p4ls.Protocol.Encode.{TextDocumentHighlight, highlight_json, symbol_json}
use p4ls.P4Unit.File.Queries.{queries_change_no_answer}
use p4ls.Dispatcher.{Thread, send, reply, reply_text}
use p4ls.Server.{Server}
use p4ls.Server.Commands.{Environment}
use p4ls.Server.Handlers.{
  on_document_highlight, on_document_symbol, on_hover, hover_json, symbols_of, place_of,
}
use p4ls.Server.Handlers.Events.{
  Event, highlight, hover, symbols, handle, CanSend, text_at, text_after, Goes,
}

text_at_object :
    (path : Bytes) (t t' : Thread Server) → t.object ≡ t'.object → text_at path t ≡ text_at path t'
unfolding text_at
text_at_object path t t' e = rw e refl

same-CanSend : (t t' : Thread Server) → t'.current ≡ t.current → CanSend t → CanSend t'
same-CanSend t t' e c =
    subst
      (λ x.
        (get_value request_id x ≡ none)
        ⊎ ((id : ℤ) × (get_value request_id x ≡ some (int_value id))
            × (get_value request_output_stream x ≡ some (stream_value 0))))
      (sym e) c

module _ (j : Json) (env : Environment j) where
  send-Goes :
      (v : j.Value) (t : Thread Server)
      → CanSend t
      → (t' : Thread Server) × (reply j Server v t ≡ some t')
        × (t'.current ≡ t.current)
        × (t'.object ≡ t.object)
  unfolding reply send
  send-Goes v t (inl h) = (t, ground arith, refl, refl)
  send-Goes v t (inr (id, h, s)) = (
    record t { output = t.output ++ reply_text j (codes "result") v id },
    ground arith,
    refl,
    refl,
  )

  -- An answer about a document whose text it leaves alone.
  answered :
      (e : Event) (v : j.Value) (path : Bytes) (f g : P4File) (t : Thread Server)
      → CanSend t
      → lookup path t.object.files ≡ some f
      → g.source_code ≡ f.source_code
      → handle j env e t
        ≡ reply j Server v
            (record t { object = record t.object { files = assign path g t.object.files } })
      → ((p : Bytes) (text : Option Bytes) → text_after p e text ≡ text)
      → Goes j env e t
  unfolding text_at
  answered e v path f g t c known same does silent =
      let asked = record t { object = record t.object { files = assign path g t.object.files } } in
      let (t', sent, context, object) = send-Goes v asked c in
      (
        t',
        does ∙ sent,
        same-CanSend asked t' context c,
        λ p. ground (
          arith,
          silent p (text_at p t),
          object,
          equal_iff path p,
          lookup-assign path p g t.object.files,
        ),
      )

  -- An answer about a document that is not known.
  not_known :
      (e : Event) (v : j.Value) (t : Thread Server)
      → CanSend t
      → handle j env e t ≡ reply j Server v t
      → ((p : Bytes) (text : Option Bytes) → text_after p e text ≡ text)
      → Goes j env e t
  not_known e v t c does silent =
      let (t', sent, context, object) = send-Goes v t c in
      (
        t',
        does ∙ sent,
        same-CanSend t t' context c,
        λ p. text_at_object p t' t object ∙ sym (silent p (text_at p t)),
      )

  hover_json_of : Option Bytes → j.Value
  hover_json_of none = j.null
  hover_json_of (some content) = hover_json j env content

  highlights_json_of : Option (List TextDocumentHighlight) → j.Value
  highlights_json_of none = j.null
  highlights_json_of (some highlights) = j.of_array (map (highlight_json j) highlights)

  on_hover_known :
      (params : ParamsTextDocumentPosition) (f : P4File) (t : Thread Server)
      → lookup params.text_document t.object.files ≡ some f
      → on_hover j env params t
        ≡ reply j Server (hover_json_of (get_hover f (place_of params)).1) (record t {
          object = record t.object {
            files = assign params.text_document (get_hover f (place_of params)).0 t.object.files;
          };
        })
  unfolding on_hover hover_json_of
  on_hover_known params f t e = elim (Option-cases (get_hover f (place_of params)).1) [
    | inl n ↦ ground arith
    | inr (content, n) ↦ ground arith
  ]

  on_document_highlight_known :
      (params : ParamsTextDocumentPosition) (f : P4File) (t : Thread Server)
      → lookup params.text_document t.object.files ≡ some f
      → on_document_highlight j env params t
        ≡ reply j Server (highlights_json_of (get_highlights f (place_of params)).1) (record t {
          object = record t.object {
            files =
                assign params.text_document (get_highlights f (place_of params)).0 t.object.files;
          };
        })
  unfolding on_document_highlight highlights_json_of
  on_document_highlight_known params f t e =
      elim (Option-cases (get_highlights f (place_of params)).1) [
        | inl n ↦ ground arith
        | inr (highlights, n) ↦ ground arith
      ]

  pub hover-Goes :
      (params : ParamsTextDocumentPosition) (t : Thread Server)
      → CanSend t
      → Goes j env (hover params) t
  unfolding handle text_after get_hover on_hover reply
  hover-Goes params t c = elim (Option-cases (lookup params.text_document t.object.files)) [
    | inl e ↦ not_known (hover params) j.null t c (rw (e, on_hover)) (λ p text. refl)
    | inr (f, e) ↦
        answered (hover params) (hover_json_of (get_hover f (place_of params)).1)
          params.text_document f (get_hover f (place_of params)).0 t c e refl
          (on_hover_known params f t e) (λ p text. refl)
  ]

  pub highlight-Goes :
      (params : ParamsTextDocumentPosition) (t : Thread Server)
      → CanSend t
      → Goes j env (highlight params) t
  unfolding handle text_after on_document_highlight reply
  highlight-Goes params t c = elim (Option-cases (lookup params.text_document t.object.files)) [
    | inl e ↦
        not_known (highlight params) j.null t c (rw (e, on_document_highlight)) (λ p text. refl)
    | inr (f, e) ↦
        answered (highlight params) (highlights_json_of (get_highlights f (place_of params)).1)
          params.text_document f (get_highlights f (place_of params)).0 t c e
          ((queries_change_no_answer f (place_of params)).1.text)
          (on_document_highlight_known params f t e) (λ p text. refl)
  ]

  pub symbols-Goes :
      (path : Bytes) (t : Thread Server)
      → ((path text : Bytes) → Compiles env.wave path text)
      → CanSend t
      → Goes j env (symbols path) t
  unfolding handle text_after on_document_symbol reply
  symbols-Goes path t ends c = elim (Option-cases (lookup path t.object.files)) [
    | inl e ↦
        not_known (symbols path) (j.of_array []) t c (rw (e, on_document_symbol)) (λ p text. refl)
    | inr (f, e) ↦
        let asked = get_symbols-Compiles env.wave f (ends f.unit_path f.source_code) in
        answered (symbols path) (j.of_array (map (symbol_json j) (symbols_of path f.symbols))) path
          f f t c e refl (ground (arith, e, asked)) (λ p text. refl)
  ]
