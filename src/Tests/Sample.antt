-- ===== src/Tests/Sample.antt =====
-- A small JSON library and a small file system, as instances of the interfaces.
use p4ls.Prelude.{
  ◌≡◌, refl, ap, Bool, true, false, Option, none, some, List, [], ◌∷◌, Bytes, codes, lookup, equal,
  if◌then◌else◌,
}
use p4ls.Prelude.Int.{ℤ}
use p4ls.Json.{Json, IsJson}
use p4ls.P4Unit.File.{Wave}
use p4ls.Server.Commands.{Environment}

mutual
  pub data Sample : Type 0 where
    null : Sample
    boolean : Bool → Sample
    number : ℤ → Sample
    text : Bytes → Sample
    items : Items → Sample
    members : Members → Sample

  pub data Items : Type 0 where
    no_items : Items
    item : Sample → Items → Items

  pub data Members : Type 0 where
    no_members : Members
    member : Bytes → Sample → Members → Members

abbrev to_items : List Sample → Items
to_items [] = no_items
to_items (v ∷ vs) = item v (to_items vs)

abbrev of_items : Items → List Sample
of_items no_items = []
of_items (item v vs) = v ∷ of_items vs

abbrev to_members : List (Bytes × Sample) → Members
to_members [] = no_members
to_members ((k, v) ∷ m) = member k v (to_members m)

abbrev find : Bytes → Members → Option Sample
find k no_members = none
find k (member i v m) = if equal i k then some v else find k m

-- The text of the one message that the library parses.
abbrev pub exit_text : Bytes
exit_text = codes "{\"jsonrpc\": \"2.0\", \"method\": \"exit\"}"

abbrev pub exit_message : Sample
exit_message = members (
    member (codes "jsonrpc") (text (codes "2.0"))
      (member (codes "method") (text (codes "exit")) no_members))

abbrev pub json : Json
json = record {
  Value = Sample;
  parse = λ s. if equal s exit_text then some exit_message else none;
  write = λ v. codes "{}";
  is_object = λ v. elim v [ members m ↦ true | _ ↦ false ];
  is_null = λ v. elim v [ null ↦ true | _ ↦ false ];
  find_member = λ v k. elim v [ members m ↦ find k m | _ ↦ none ];
  get_string = λ v. elim v [ text s ↦ some s | _ ↦ none ];
  get_int = λ v. elim v [ number n ↦ some n | _ ↦ none ];
  get_bool = λ v. elim v [ boolean b ↦ some b | _ ↦ none ];
  get_array = λ v. elim v [ items vs ↦ some (of_items vs) | _ ↦ none ];
  null = null;
  of_bool = boolean;
  of_int = number;
  of_string = text;
  of_array = λ vs. items (to_items vs);
  of_object = λ m. members (to_members m);
}

find-to_members : (m : List (Bytes × Sample)) (k : Bytes) → find k (to_members m) ≡ lookup k m
unfolding lookup
find-to_members [] k = refl
find-to_members ((i, v) ∷ m) k = rw (find-to_members m k) refl

of_items-to_items : (vs : List Sample) → of_items (to_items vs) ≡ vs
of_items-to_items [] = refl
of_items-to_items (v ∷ vs) = ap (λ r. v ∷ r) (of_items-to_items vs)

pub json-IsJson : IsJson json
json-IsJson = record {
  object_is_object = λ m. refl;
  find-of_object = find-to_members;
  object_is_not_null = λ m. refl;
  get-of_string = λ s. refl;
  get-of_int = λ n h. refl;
  get-of_bool = λ b. refl;
  get-of_array = λ vs. ap some (of_items-to_items vs);
}

-- A preprocessor that finds nothing in any text.
abbrev pub nothing_read : Wave
nothing_read = record { moves = λ p s. some []; file = []; line = 1 }

-- No directory has a parent, and no file is there.
abbrev pub environment : Environment json
environment = record {
  has_parent_path = λ p. false;
  parent_path = λ p. [];
  join = λ p q. [];
  exists = λ p. false;
  read_json = λ p. none;
  tokens = λ c. [];
  dead_tokens = λ c. none;
  wave = nothing_read;
}
