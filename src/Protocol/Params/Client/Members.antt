-- ===== src/Protocol/Params/Client/Members.antt =====
-- How a client writes numbers, positions, ranges and documents, and that they are read back.
use p4ls.Prelude.{
  lookup, ℕ, ◌<◌, ◌^◌, ◌≡◌, refl, is_some, Option, none, some, List, [], ◌∷◌, ◌++◌, Bytes, codes,
  count, c_str_lem, equal, arith,
}
use p4ls.Prelude.Int.{pos}
use p4ls.Json.{Json, IsJson}
use p4ls.Json.Decode.{ok, refused, has_member, find, member, string, int, asserted}
use p4ls.Info.{Position}
use p4ls.Protocol.Range.{Range}
use p4ls.Protocol.Uri.{set_from_uri-scheme}
use p4ls.Protocol.Params.{
  ParamsTextDocumentPosition, to_unsigned, new_position, set_position, new_range, required,
  set_text_document_identifier, set_text_document_position,
}

abbrev pub Small : ℕ → Type 0
Small n = n < 2 ^ 31

abbrev pub IfSome {ℓ κ} : {A : Type ℓ} → (A → Type κ) → Option A → Type κ
IfSome P none = Unit
IfSome P (some a) = P a

abbrev pub SmallPosition : Position → Type 0
SmallPosition p = Small p.line × Small p.character

pub to_unsigned-Small : (n : ℕ) → Small n → to_unsigned (pos n) ≡ n
unfolding to_unsigned
to_unsigned-Small n h = omega arith

module _ (j : Json) (laws : IsJson j) where
  open j use {Value, of_object, of_int, of_string, of_array}

  pub has_member_lem :
      (m : List (Bytes × Value)) (k : Bytes)
      → has_member j (of_object m) k ≡ ok (is_some (lookup k m))
  unfolding has_member
  has_member_lem m k = rw (laws.object_is_object m, laws.find-of_object m k)

  pub member_lem :
      (m : List (Bytes × Value)) (k : Bytes) → member j (of_object m) k ≡ asserted (lookup k m)
  unfolding member
  member_lem m k = rw (laws.object_is_object m, laws.find-of_object m k)

  pub find_lem : (m : List (Bytes × Value)) (k : Bytes) → find j (of_object m) k ≡ ok (lookup k m)
  unfolding find
  find_lem m k = rw (laws.object_is_object m, laws.find-of_object m k)

  pub int_lem : (n : ℕ) → Small n → int j (of_int (pos n)) ≡ ok (pos n)
  unfolding int
  int_lem n h = rw (laws.get-of_int n h)

  pub string_lem : (s : Bytes) → count 0 s ≡ 0 → string j (of_string s) ≡ ok s
  unfolding string
  string_lem s h = rw (laws.get-of_string s, c_str_lem s h)

  pub required_lem :
      (m : List (Bytes × Value)) (k : Bytes)
      → required j (of_object m) k ≡ elim (lookup k m) [ none ↦ refused | some x ↦ ok x ]
  unfolding required
  required_lem m k = rw (find_lem m k)

  abbrev pub write_position : Position → Value
  write_position p =
      of_object
        ((codes "line", of_int (pos p.line)) ∷ (codes "character", of_int (pos p.character)) ∷ [])

  new_position-write : (p : Position) → SmallPosition p → new_position j (write_position p) ≡ ok p
  unfolding new_position lookup equal
  new_position-write p (l, c) = simp (member_lem, int_lem, to_unsigned-Small, l, c)

  set_position-write : (p : Position) → SmallPosition p → set_position j (write_position p) ≡ ok p
  unfolding set_position lookup equal
  set_position-write p h = simp (has_member_lem) (new_position-write p h)

  abbrev pub write_range : Range → Value
  write_range r =
      of_object
        ((codes "start", write_position r.start) ∷ (codes "end", write_position r.finish) ∷ [])

  abbrev pub SmallRange : Range → Type 0
  SmallRange r = SmallPosition r.start × SmallPosition r.finish

  pub new_range-write : (r : Range) → SmallRange r → new_range j (write_range r) ≡ ok r
  unfolding new_range lookup equal
  new_range-write r (s, f) =
      simp (member_lem, new_position-write r.start s, new_position-write r.finish f)

  abbrev pub write_document : Bytes → Value
  write_document path = of_object ((codes "uri", of_string (codes "file://" ++ path)) ∷ [])

  set_document-write :
      (path : Bytes)
      → count 0 path ≡ 0
      → set_text_document_identifier j (write_document path) ≡ ok path
  unfolding set_text_document_identifier lookup equal
  set_document-write path h =
      simp (required_lem, string_lem, set_from_uri-scheme (codes "file") path refl, h)

  abbrev pub write_text_document_position : ParamsTextDocumentPosition → Value
  write_text_document_position p = of_object (
      (codes "textDocument", write_document p.text_document)
      ∷ (codes "position", write_position p.position)
      ∷ [])

  -- A request at a position, with numbers below 2 ^ 31 and a path with no NUL, is read as the client
  -- meant it.
  set_text_document_position-write :
      (p : ParamsTextDocumentPosition)
      → SmallPosition p.position
      → count 0 p.text_document ≡ 0
      → set_text_document_position j (write_text_document_position p) ≡ ok p
  unfolding set_text_document_position lookup equal
  set_text_document_position-write p h c =
      simp (has_member_lem, member_lem, set_document-write, set_position-write p.position h, c)
