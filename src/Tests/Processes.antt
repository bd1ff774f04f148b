-- ===== src/Tests/Processes.antt =====
-- The process, its commands, its threads and its tokens.
use p4ls.Prelude.{
  ◌<◌, ◌≡◌, ◌≢◌, refl, ◌⊎◌, true, false, Option, none, some, [], ◌∷◌, Bytes, codes, length, equal,
  c_str, lookup, emplace, if◌then◌else◌, arith, List,
}
use p4ls.Daemon.{Settings, starts, initial_settings, arguments, open_file, input_stream}
use p4ls.Daemon.Input.{second_input-stays}
use p4ls.Dispatcher.{Thread}
use p4ls.Server.{Server, new_server}
use p4ls.Transport.Loop.{Running, Steps}
use p4ls.Json.Decode
use p4ls.Json.Decode.{ok}
use p4ls.Server.Commands.{
  Environment, find_command_for_path, search_parents, load, first_token, find_std_include,
  add_commands, the_command, append_tokens,
}
use p4ls.Server.Commands.Known.{Keeps, find_command_for_path-Found, search_parents-ends}
use p4ls.Tests.Sample.{
  Sample, items, item, no_items, members, member, no_members, text, json, environment,
}

-- Two files can be opened.
abbrev contents : Bytes → Option Bytes
contents name =
    if equal name (codes "a")
    then some (codes "one")
    else if equal name (codes "b")
    then some (codes "two")
    else none

abbrev two_files : Settings
two_files = record initial_settings {
  from_file = true;
  ifs = record { opened = some (codes "a"); failed = true };
}

opens_a : contents (codes "a") ≡ some (codes "one")
unfolding equal
opens_a = refl

starts_with_two :
    arguments contents (codes "-i" ∷ codes "a" ∷ codes "-i" ∷ codes "b" ∷ []) initial_settings
    ≡ starts two_files
unfolding arguments open_file equal
starts_with_two = refl

abbrev worker : Thread Server
worker = record { current = []; output = []; object = new_server }

abbrev begun : Running
begun = record {
  stream = input_stream contents (codes "stdin") two_files;
  queue = [];
  worker = worker;
}

second_input-stays_example : begun ≡ begun
second_input-stays_example =
    second_input-stays contents json environment (codes "a") (codes "b") [] (codes "one")
      (codes "stdin") two_files worker begun opens_a starts_with_two (Steps.stays begun)

-- One directory holds a file of commands, with one entry.
abbrev entry : Sample
entry = members (
    member (codes "command") (text (codes "p4c a.p4"))
      (member (codes "file") (text (codes "a.p4")) no_members))

abbrev one_file : Environment json
one_file = record environment {
  has_parent_path = λ p. elim p [ [] ↦ false | _ ↦ true ];
  parent_path = λ p. elim p [ [] ↦ [] | c ∷ cs ↦ cs ];
  exists = λ p. true;
  read_json = λ p. some (items (item entry no_items));
  tokens = λ c. codes "p4c" ∷ codes "a.p4" ∷ [];
  dead_tokens = λ c. some (codes "p4c" ∷ []);
}

shorter :
    (path : Bytes)
    → one_file.has_parent_path path ≡ true
    → length (one_file.parent_path path) < length path
shorter [] h = ground arith
shorter (c ∷ cs) h = omega arith

search_parents-ends_example :
    (search_parents json one_file 9 (codes "a.p4") (codes "a.p4") [] ≢ none)
    × (search_parents json one_file 9 (codes "a.p4") (codes "a.p4") []
        ≡ search_parents json one_file 5 (codes "a.p4") (codes "a.p4") [])
search_parents-ends_example =
    search_parents-ends json one_file shorter 9 5 (codes "a.p4") (codes "a.p4") [] (omega arith)
      (omega arith)

finds_entry :
    find_command_for_path json one_file (codes "a.p4") []
    ≡ ok (codes "p4lsd a.p4", (codes "a.p4", codes "p4lsd a.p4") ∷ [])
unfolding find_command_for_path search_parents load first_token find_std_include add_commands
    the_command append_tokens lookup emplace equal Decode.member Decode.string c_str
finds_entry = refl

abbrev known_then : List (Bytes × Bytes)
known_then = (codes "a.p4", codes "p4lsd a.p4") ∷ []

find_command_for_path-Found_example :
    Keeps [] known_then
    × ((lookup {V = Bytes} (codes "a.p4") [] ≡ none)
        ⊎ ((lookup {V = Bytes} (codes "a.p4") [] ≡ some (codes "p4lsd a.p4")) × (known_then ≡ [])))
    × (codes "p4lsd a.p4"
        ≡ elim (lookup (codes "a.p4") known_then) [ none ↦ [] | some found ↦ found ])
find_command_for_path-Found_example =
    find_command_for_path-Found json one_file (codes "a.p4") [] (codes "p4lsd a.p4", known_then)
      finds_entry
