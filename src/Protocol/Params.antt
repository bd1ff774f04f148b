-- ===== src/Protocol/Params.antt =====
-- server/lsp/protocol.h and protocol.cpp, `set_params_from_json`: the parameters of the methods.
pub mod Ignored
pub mod Client
use p4ls.Prelude.{
  ℕ, ◌-◌, ◌%◌, ◌^◌, ◌&&◌, Option, none, some, List, [], map, Bytes, codes, equal, if◌then◌else◌,
}
use p4ls.Prelude.Int.{ℤ, pos, negsuc}
use p4ls.Json.{Json}
use p4ls.Json.Decode.{
  Decode, ok, refused, fault, ◌>>=◌, ◌>>◌, guard, has_member, find, member, string, int, array,
  optional, map_decode,
}
use p4ls.Info.{Position}
use p4ls.Protocol.Range.{Range}
use p4ls.Protocol.Uri.{set_from_uri, set_from_path}
use p4ls.Protocol.Kinds.{TraceLevel, off, messages, verbose}
use p4ls.Protocol.Capabilities.{ClientCapabilities, decode_client_capabilities}
use p4ls.P4Unit.Edit.{TextDocumentContentChangeEvent}

pub record TextDocumentItem : Type 0 where
  pub uri : Bytes
  pub language_id : Bytes
  pub version : ℤ
  pub text : Bytes

pub record VersionedTextDocumentIdentifier : Type 0 where
  pub uri : Bytes
  pub version : Option ℤ

pub record ParamsTextDocumentPosition : Type 0 where
  pub text_document : Bytes
  pub position : Position

pub record ParamsDidChange : Type 0 where
  pub text_document : VersionedTextDocumentIdentifier
  pub content_changes : List TextDocumentContentChangeEvent

pub record ParamsDidSave : Type 0 where
  pub text_document : Bytes
  pub text : Option Bytes

pub record WorkspaceFolder : Type 0 where
  pub uri : Bytes
  pub name : Bytes

-- `none` for the process id: the field has no initial value and the member is missing.
pub record ParamsInitialize : Type 0 where
  pub process_id : Option ℤ
  pub root_uri : Bytes
  pub capabilities : ClientCapabilities
  pub trace : Option TraceLevel
  pub initialization_options : Option (List Bytes)
  pub workspace_folders : Option (List WorkspaceFolder)

-- `int` to `unsigned int`.
unfoldable pub to_unsigned : ℤ → ℕ
to_unsigned (pos n) = n % 2 ^ 32
to_unsigned (negsuc n) = 2 ^ 32 - 1 - n % 2 ^ 32

module _ (j : Json) where
  open j use {Value, is_null, get_string}

  -- The constructor of `Position`, which asserts that the members are there ...
  unfoldable pub new_position : Value → Decode Position
  new_position v = do
    l ← member j v (codes "line")
    line ← int j l
    c ← member j v (codes "character")
    character ← int j c
    ok (record { line = to_unsigned line; character = to_unsigned character })

  -- ... and `Position::set`, which tests for them.
  unfoldable pub set_position : Value → Decode Position
  set_position v = do
    has_line ← has_member j v (codes "line")
    has_character ← has_member j v (codes "character")
    guard (has_line && has_character)
    new_position v

  unfoldable pub new_range : Value → Decode Range
  new_range v = do
    s ← member j v (codes "start")
    start ← new_position s
    e ← member j v (codes "end")
    finish ← new_position e
    ok (record { start = start; finish = finish })

  -- `it = json.FindMember(k); if (it == json.MemberEnd()) return false;`
  unfoldable pub required : Value → Bytes → Decode Value
  required v k = do found ← find j v k; elim found [ none ↦ refused | some x ↦ ok x ]

  -- `it = json.FindMember(k); if (it != json.MemberEnd()) field.emplace(f(it->value))`
  unfoldable pub if_found {ℓ} :
      {A : Type ℓ} → (Value → Decode A) → Value → Bytes → Decode (Option A)
  if_found f v k = do
    found ← find j v k
    elim found [ none ↦ ok none | some x ↦ (do a ← f x; ok (some a)) ]

  -- `Text_document_item::set`
  unfoldable pub set_text_document_item : Value → Decode TextDocumentItem
  set_text_document_item v = do
    has_uri ← has_member j v (codes "uri")
    has_language_id ← has_member j v (codes "languageId")
    has_version ← has_member j v (codes "version")
    has_text ← has_member j v (codes "text")
    guard (has_uri && has_language_id && has_version && has_text)
    u ← member j v (codes "uri")
    uri ← string j u
    l ← member j v (codes "languageId")
    language_id ← string j l
    n ← member j v (codes "version")
    version ← int j n
    t ← member j v (codes "text")
    text ← string j t
    ok (record {
      uri = set_from_uri uri;
      language_id = language_id;
      version = version;
      text = text;
    })

  -- `Text_document_identifier::set`
  unfoldable pub set_text_document_identifier : Value → Decode Bytes
  set_text_document_identifier v = do
    it ← required v (codes "uri")
    uri ← string j it
    ok (set_from_uri uri)

  -- `Versioned_text_document_identifier::set`
  unfoldable pub set_versioned_text_document_identifier :
      Value → Decode VersionedTextDocumentIdentifier
  set_versioned_text_document_identifier v = do
    uri ← set_text_document_identifier v
    version ← if_found (int j) v (codes "version")
    ok (record { uri = uri; version = version })

  -- `Text_document_content_change_event::set`
  unfoldable pub set_content_change : Value → Decode TextDocumentContentChangeEvent
  set_content_change v = do
    it ← required v (codes "text")
    text ← string j it
    range ← if_found new_range v (codes "range")
    range_length ← if_found (λ x. do n ← int j x; ok (to_unsigned n)) v (codes "rangeLength")
    ok (record { range = range; range_length = range_length; text = text })

  -- `Params_textDocument_didChange::set`
  unfoldable pub set_did_change : Value → Decode ParamsDidChange
  set_did_change v = do
    d ← required v (codes "textDocument")
    text_document ← set_versioned_text_document_identifier d
    c ← required v (codes "contentChanges")
    es ← array j c
    content_changes ← map_decode set_content_change es
    ok (record { text_document = text_document; content_changes = content_changes })

  -- `Params_text_document_position::set`
  unfoldable pub set_text_document_position : Value → Decode ParamsTextDocumentPosition
  set_text_document_position v = do
    has_document ← has_member j v (codes "textDocument")
    has_position ← has_member j v (codes "position")
    guard (has_document && has_position)
    d ← member j v (codes "textDocument")
    text_document ← set_text_document_identifier d
    p ← member j v (codes "position")
    position ← set_position p
    ok (record { text_document = text_document; position = position })

  -- The document of a method that has one: `false` where the member is missing.
  unfoldable pub document {ℓ} : {A : Type ℓ} → (Value → Decode A) → Value → Decode A
  document f v = do
    has_document ← has_member j v (codes "textDocument")
    guard has_document
    d ← member j v (codes "textDocument")
    f d

  unfoldable pub set_did_open : Value → Decode TextDocumentItem
  set_did_open = document set_text_document_item

  unfoldable pub set_document_symbol : Value → Decode Bytes
  set_document_symbol = document set_text_document_identifier

  -- The text is read, and its type asserted, whatever became of the document.
  unfoldable pub set_did_save : Value → Decode ParamsDidSave
  set_did_save v =
      let text : Decode (Option Bytes) = (do
        has_text ← has_member j v (codes "text")
        if has_text
            then (do t ← member j v (codes "text"); s ← string j t; ok (some s))
            else ok none) in
      elim (document set_text_document_identifier v) [
        | fault ↦ fault
        | refused ↦ (do t ← text; refused)
        | ok d ↦ (do t ← text; ok (record { text_document = d; text = t }))
      ]

  -- The chain of comparisons: anything else is `OFF`.
  unfoldable pub trace_level : Value → TraceLevel
  trace_level v = elim (get_string v) [
    | none ↦ off
    | some s ↦
        if equal s (codes "off")
        then off
        else if equal s (codes "messages")
        then messages
        else if equal s (codes "verbose")
        then verbose
        else off
  ]

  -- `rootUri`, else `rootPath`, else the empty path.
  unfoldable pub root_uri : Value → Decode Bytes
  root_uri v = do
    uri ← optional j (string j) v (codes "rootUri")
    elim uri [
      | some u ↦ ok (set_from_uri u)
      | none ↦ (do
        path ← optional j (string j) v (codes "rootPath")
        ok (elim path [ some p ↦ set_from_path p | none ↦ [] ]))
    ]

  unfoldable pub set_initialize : Value → Decode ParamsInitialize
  set_initialize v = do
    process_id ← optional j (int j) v (codes "processId")
    root ← root_uri v
    options ← optional j (λ _. ok []) v (codes "initializationOptions")
    capabilities ← if_found (decode_client_capabilities j) v (codes "capabilities")
    trace ← optional j (λ t. ok (trace_level t)) v (codes "trace")
    folders ←
        optional j (λ w. do es ← array j w; ok (map (λ _. record { uri = []; name = [] }) es)) v
          (codes "workspaceFolders")
    ok (record {
      process_id = process_id;
      root_uri = root;
      capabilities = elim capabilities [
        | none ↦ record { workspace = none; text_document = none }
        | some c ↦ c
      ];
      trace = trace;
      initialization_options = options;
      workspace_folders = folders;
    })
