-- ===== src/Server/Stubs.antt =====
-- The methods of server/lsp/lsp_server.cpp that only log, and those that log and answer null: one
-- definition for each, by three bodies.
use p4ls.Json.{Json}
use p4ls.Protocol.Params.{ParamsTextDocumentPosition}
use p4ls.Dispatcher.{Action, reply}
use p4ls.Server.{Server}
use p4ls.Server.Commands.{Environment}
use p4ls.Prelude.{some}

module _ (j : Json) (env : Environment j) where
  open j use {null}

  unfoldable pub on_ignored : Unit {0} → Action Server
  on_ignored _ t = some t

  unfoldable pub on_null : Unit {0} → Action Server
  on_null _ = reply j Server null

  unfoldable pub on_position_null : ParamsTextDocumentPosition → Action Server
  on_position_null _ = reply j Server null

  abbrev pub on_shutdown : Unit {0} → Action Server
  on_shutdown = on_null

  abbrev pub on_code_lens : Unit {0} → Action Server
  on_code_lens = on_null

  abbrev pub on_code_lens_resolve : Unit {0} → Action Server
  on_code_lens_resolve = on_null

  abbrev pub on_completion : Unit {0} → Action Server
  on_completion = on_null

  abbrev pub on_formatting : Unit {0} → Action Server
  on_formatting = on_null

  abbrev pub on_type_formatting : Unit {0} → Action Server
  on_type_formatting = on_null

  abbrev pub on_range_formatting : Unit {0} → Action Server
  on_range_formatting = on_null

  abbrev pub on_rename : Unit {0} → Action Server
  on_rename = on_null

  abbrev pub on_definition : ParamsTextDocumentPosition → Action Server
  on_definition = on_position_null

  abbrev pub on_implementation : ParamsTextDocumentPosition → Action Server
  on_implementation = on_position_null

  abbrev pub on_signature_help : ParamsTextDocumentPosition → Action Server
  on_signature_help = on_position_null

  abbrev pub on_type_definition : ParamsTextDocumentPosition → Action Server
  on_type_definition = on_position_null

  abbrev pub on_code_action : Unit {0} → Action Server
  on_code_action = on_ignored

  abbrev pub on_did_close : Unit {0} → Action Server
  on_did_close = on_ignored

  abbrev pub on_switch_source_header : Unit {0} → Action Server
  on_switch_source_header = on_ignored

  abbrev pub on_did_change_configuration : Unit {0} → Action Server
  on_did_change_configuration = on_ignored

  abbrev pub on_did_change_watched_files : Unit {0} → Action Server
  on_did_change_watched_files = on_ignored

  abbrev pub on_execute_command : Unit {0} → Action Server
  on_execute_command = on_ignored
