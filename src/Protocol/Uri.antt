-- ===== src/Protocol/Uri.antt =====
-- server/lsp/protocol.h, `URI`: a document is known by the path behind the scheme of its URI.
use p4ls.Prelude.{
  ℕ, suc, ◌+◌, ◌≡◌, refl, Bool, true, false, ◌&&◌, Option, none, some, [], ◌∷◌, ◌++◌, Bytes, codes,
  drop, length, count, ◌==◌, if◌then◌else◌, arith,
}

starts_with : Bytes → Bytes → Bool
starts_with [] s = true
starts_with (p ∷ ps) [] = false
starts_with (p ∷ ps) (c ∷ cs) = p == c && starts_with ps cs

-- `std::string::find` of a text; `none` is `npos`.
pub find_text : Bytes → Bytes → Option ℕ
unfolding starts_with
find_text pattern [] = if starts_with pattern [] then some 0 else none
find_text pattern (c ∷ cs) =
    if starts_with pattern (c ∷ cs)
    then some 0
    else elim (find_text pattern cs) [ none ↦ none | some k ↦ some (suc k) ]

abbrev separator : Bytes
separator = codes "://"

-- The path that `set_from_uri` keeps.
unfoldable pub set_from_uri : Bytes → Bytes
unfolding find_text
set_from_uri uri = elim (find_text separator uri) [ none ↦ uri | some pos ↦ drop (pos + 3) uri ]

unfoldable pub set_from_path : Bytes → Bytes
set_from_path path = path

find_text-scheme :
    (scheme path : Bytes)
    → count b':' scheme ≡ 0
    → find_text separator (scheme ++ (separator ++ path)) ≡ some (length scheme)
unfolding find_text
find_text-scheme [] path h = refl
find_text-scheme (c ∷ scheme) path h = ground (arith, find_text-scheme scheme path)

drop-scheme :
    (scheme path : Bytes) → drop (length scheme + 3) (scheme ++ (separator ++ path)) ≡ path
drop-scheme [] path = refl
drop-scheme (c ∷ scheme) path =
    let e : suc (length scheme) + 3 ≡ suc (length scheme + 3) = omega arith in
    rw e (drop-scheme scheme path)

-- Behind any scheme with no colon the path is kept whole, whatever it holds.
pub set_from_uri-scheme :
    (scheme path : Bytes)
    → count b':' scheme ≡ 0
    → set_from_uri (scheme ++ (codes "://" ++ path)) ≡ path
unfolding set_from_uri
set_from_uri-scheme scheme path h =
    rw (find_text-scheme scheme path h, set_from_uri) (drop-scheme scheme path)

find_text-no_colon : (s : Bytes) → count b':' s ≡ 0 → find_text separator s ≡ none
unfolding find_text
find_text-no_colon [] h = refl
find_text-no_colon (c ∷ s) h = ground (arith, find_text-no_colon s)

-- A text with no colon is taken as a path.
set_from_uri-path : (path : Bytes) → count b':' path ≡ 0 → set_from_uri path ≡ path
unfolding set_from_uri
set_from_uri-path path h = rw (find_text-no_colon path h, set_from_uri)
