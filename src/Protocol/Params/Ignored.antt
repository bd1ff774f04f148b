-- ===== src/Protocol/Params/Ignored.antt =====
-- server/lsp/protocol.cpp: the `set_params_from_json` of the methods whose parameters are structures
-- with no member. Each takes any value.
use p4ls.Json.{Json}
use p4ls.Json.Decode.{Decode, ok}

module _ (j : Json) where
  open j use {Value}

  abbrev pub set_exit : Value → Decode (Unit {0})
  set_exit _ = ok tt

  abbrev pub set_shutdown : Value → Decode (Unit {0})
  set_shutdown _ = ok tt

  abbrev pub set_code_action : Value → Decode (Unit {0})
  set_code_action _ = ok tt

  abbrev pub set_code_lens : Value → Decode (Unit {0})
  set_code_lens _ = ok tt

  abbrev pub set_code_lens_resolve : Value → Decode (Unit {0})
  set_code_lens_resolve _ = ok tt

  abbrev pub set_completion : Value → Decode (Unit {0})
  set_completion _ = ok tt

  abbrev pub set_did_close : Value → Decode (Unit {0})
  set_did_close _ = ok tt

  abbrev pub set_formatting : Value → Decode (Unit {0})
  set_formatting _ = ok tt

  abbrev pub set_type_formatting : Value → Decode (Unit {0})
  set_type_formatting _ = ok tt

  abbrev pub set_range_formatting : Value → Decode (Unit {0})
  set_range_formatting _ = ok tt

  abbrev pub set_rename : Value → Decode (Unit {0})
  set_rename _ = ok tt

  abbrev pub set_switch_source_header : Value → Decode (Unit {0})
  set_switch_source_header _ = ok tt

  abbrev pub set_did_change_configuration : Value → Decode (Unit {0})
  set_did_change_configuration _ = ok tt

  abbrev pub set_did_change_watched_files : Value → Decode (Unit {0})
  set_did_change_watched_files _ = ok tt

  abbrev pub set_execute_command : Value → Decode (Unit {0})
  set_execute_command _ = ok tt
