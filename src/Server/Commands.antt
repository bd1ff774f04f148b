-- ===== src/Server/Commands.antt =====
-- server/lsp/lsp_server.cpp, `find_command_for_path`: the compiler's command for a document, from
-- the nearest `compile_commands.json` above it. The file system, the paths and the tokenizer of
-- Boost are a parameter.
pub mod Known
use p4ls.Prelude.{
  ℕ, zero, suc, Bool, Option, none, some, List, [], ◌∷◌, ◌++◌, Bytes, codes, lookup, emplace, ◌&&◌,
  if◌then◌else◌, length,
}
use p4ls.Json.{Json}
use p4ls.Json.Decode.{Decode, ok, fault, ◌>>=◌, member, string}
use p4ls.P4Unit.File.{Wave}

pub record Environment (j : Json) : Type 0 where
  pub has_parent_path : Bytes → Bool
  pub parent_path : Bytes → Bytes
  pub join : Bytes → Bytes → Bytes
  pub exists : Bytes → Bool
  -- `ParseStream` on the file; `none` is a parse error.
  pub read_json : Bytes → Option j.Value
  -- The words of a text.
  pub tokens : Bytes → List Bytes
  -- What the tokenizer gives for the words of a text that is freed before they are read; `none` if
  -- the process does not go on. Nothing is known of it.
  pub dead_tokens : Bytes → Option (List Bytes)
  pub wave : Wave

module _ (j : Json) (env : Environment j) where
  open j use {Value, get_array}
  open env use {has_parent_path, parent_path, join, exists, read_json, tokens, dead_tokens}

  -- `*tokens.begin()` behind the tokenizer over a temporary, which is dead when it is read; without a
  -- word it is undefined.
  unfoldable pub first_token : Bytes → Decode Bytes
  first_token command = elim (dead_tokens command) [
    | none ↦ fault
    | some [] ↦ fault
    | some (t ∷ _) ↦ ok t
  ]

  -- Where the compiler's own include files lie, if they are at one of two places beside it.
  unfoldable pub find_std_include : Bytes → Bytes
  find_std_include compiler =
      if has_parent_path compiler && has_parent_path (parent_path compiler)
      then (let root = parent_path (parent_path compiler) in
          let share = join (join (join root (codes "share")) (codes "p4c")) (codes "p4include") in
          let plain = join root (codes "p4include") in
          if exists share then share else if exists plain then plain else [])
      else []

  unfoldable pub append_tokens : Bytes → List Bytes → Bytes
  append_tokens command [] = command
  append_tokens command (t ∷ ts) = append_tokens (command ++ (codes " " ++ t)) ts

  -- The loop over the words: all but the first, behind the server's own name and the include path.
  unfoldable pub the_command : Bytes → Bytes → Decode Bytes
  unfolding append_tokens
  the_command std_include command = elim (tokens command) [
    | [] ↦ fault
    | _ ∷ ts ↦ ok (
        append_tokens
          (elim std_include [
            | [] ↦ codes "p4lsd"
            | c ∷ cs ↦ codes "p4lsd" ++ (codes " -I " ++ (c ∷ cs))
          ])
          ts)
  ]

  -- The loop over the entries of the file.
  unfoldable pub add_commands :
      Bytes → List Value → List (Bytes × Bytes) → Decode (List (Bytes × Bytes))
  add_commands std_include [] commands = ok commands
  add_commands std_include (it ∷ its) commands = do
    f ← member j it (codes "file")
    the_file ← string j f
    c ← member j it (codes "command")
    command ← string j c
    new ← the_command std_include command
    add_commands std_include its (emplace the_file new commands)

  -- The body of the loop on the file that was found: the answer, and the commands then known.
  unfoldable pub load : Bytes → Bytes → List (Bytes × Bytes) → Decode (Bytes × List (Bytes × Bytes))
  load file compile_commands_path commands =
      let entries : Option (List Value) = elim (read_json compile_commands_path) [
        | none ↦ none
        | some v ↦ get_array v
      ] in
      elim entries [
        | none ↦ ok ([], commands)
        | some [] ↦ fault
        | some (e ∷ es) ↦ (do
          c ← member j e (codes "command")
          command ← string j c
          compiler ← first_token command
          known ← add_commands (find_std_include compiler) (e ∷ es) commands
          ok (elim (lookup file known) [ none ↦ [] | some found ↦ found ], known))
      ]

  -- The loop over the parents of the path; none if it has not ended.
  unfoldable pub search_parents :
      ℕ → Bytes → Bytes → List (Bytes × Bytes) → Option (Decode (Bytes × List (Bytes × Bytes)))
  search_parents zero file path commands = none
  search_parents (suc fuel) file path commands =
      let above = parent_path path in
      let rest = search_parents fuel file above commands in
      if has_parent_path path
      then (if exists (join above (codes "compile_commands.json"))
          then some (load file (join above (codes "compile_commands.json")) commands)
          else rest)
      else some (ok ([], commands))

  -- A search that does not end does not return.
  abbrev pub returned :
      Option (Decode (Bytes × List (Bytes × Bytes))) → Decode (Bytes × List (Bytes × Bytes))
  returned none = fault
  returned (some d) = d

  unfoldable pub find_command_for_path :
      Bytes → List (Bytes × Bytes) → Decode (Bytes × List (Bytes × Bytes))
  find_command_for_path file commands = elim (lookup file commands) [
    | some command ↦ ok (command, commands)
    | none ↦ returned (search_parents (suc (length file)) file file commands)
  ]
