-- ===== src/Json.antt =====
-- The JSON library that the server calls, rapidjson, as an interface: its values are abstract, and
-- every definition that reads or builds one takes the interface as a parameter.
pub mod Decode
use p4ls.Prelude.{ℕ, ◌<◌, ◌^◌, ◌≡◌, Bool, true, false, Option, some, List, Bytes, lookup}
use p4ls.Prelude.Int.{ℤ, pos}

-- An accessor whose value has the wrong type fails an assertion: `none`.
pub record Json : Type 1 where
  pub Value : Type 0
  pub parse : Bytes → Option Value
  pub write : Value → Bytes
  pub is_object : Value → Bool
  pub is_null : Value → Bool
  pub find_member : Value → Bytes → Option Value
  pub get_string : Value → Option Bytes
  pub get_int : Value → Option ℤ
  pub get_bool : Value → Option Bool
  pub get_array : Value → Option (List Value)
  pub null : Value
  pub of_bool : Bool → Value
  pub of_int : ℤ → Value
  pub of_string : Bytes → Value
  pub of_array : List Value → Value
  pub of_object : List (Bytes × Value) → Value

-- What the documentation of rapidjson says of values that were built by it; `FindMember` gives the
-- first member of the name.
pub record IsJson (j : Json) : Type 0 where
  pub object_is_object : (m : List (Bytes × j.Value)) → j.is_object (j.of_object m) ≡ true
  pub find-of_object :
      (m : List (Bytes × j.Value)) (k : Bytes) → j.find_member (j.of_object m) k ≡ lookup k m
  pub object_is_not_null : (m : List (Bytes × j.Value)) → j.is_null (j.of_object m) ≡ false
  pub get-of_string : (s : Bytes) → j.get_string (j.of_string s) ≡ some s
  pub get-of_int : (n : ℕ) → n < 2 ^ 31 → j.get_int (j.of_int (pos n)) ≡ some (pos n)
  pub get-of_bool : (b : Bool) → j.get_bool (j.of_bool b) ≡ some b
  pub get-of_array : (vs : List j.Value) → j.get_array (j.of_array vs) ≡ some vs
