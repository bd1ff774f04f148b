-- ===== src/Protocol/Capabilities/Conforming.antt =====
-- Values of the right type, and that the decoders return on them.
use p4ls.Prelude.{◌≡◌, refl, inl, inr, Bool, some, List, [], ◌∷◌, Bytes, All, c_str}
use p4ls.Prelude.Int.{ℤ}
use p4ls.Json.{Json}
use p4ls.Json.Decode.{
  Decode, ok, ◌>>=◌, string, int, bool, array, map_decode, optional, Returns, Member, bind-Returns,
  bind-Returns_inv, asserted-eq-ok, asserted-Returns_inv,
}
use p4ls.Json.Decode
use p4ls.Protocol.Capabilities.Lists.{markup_kinds, completion_item_kinds, symbol_kinds}

pub map_decode-Returns {ℓ κ} :
    {A : Type ℓ} {B : Type κ} (f : A → Decode B) (xs : List A)
    → All (λ x. Returns (f x)) xs
    → Returns (map_decode f xs)
map_decode-Returns f [] h = ([], refl)
map_decode-Returns f (x ∷ xs) h =
    bind-Returns h.0 λ y. bind-Returns (map_decode-Returns f xs h.1) λ ys. (y ∷ ys, refl)

pub map_decode-Returns_inv {ℓ κ} :
    {A : Type ℓ} {B : Type κ} (f : A → Decode B) (xs : List A)
    → Returns (map_decode f xs)
    → All (λ x. Returns (f x)) xs
map_decode-Returns_inv f [] r = tt
map_decode-Returns_inv f (x ∷ xs) r =
    let (y, e, r') = bind-Returns_inv r in
    let (ys, e', _) = bind-Returns_inv r' in ((y, e), map_decode-Returns_inv f xs (ys, e'))

module _ (j : Json) where
  open j use {Value, get_string, get_int, get_bool, get_array}

  abbrev pub IsBool : Value → Type 0
  IsBool v = (b : Bool) × (get_bool v ≡ some b)

  abbrev pub IsString : Value → Type 0
  IsString v = (s : Bytes) × (get_string v ≡ some s)

  abbrev pub IsInt : Value → Type 0
  IsInt v = (n : ℤ) × (get_int v ≡ some n)

  abbrev pub IsStringArray : Value → Type 0
  IsStringArray v = (xs : List Value) × (get_array v ≡ some xs) × All IsString xs

  abbrev pub IsIntArray : Value → Type 0
  IsIntArray v = (xs : List Value) × (get_array v ≡ some xs) × All IsInt xs

  pub bool-Returns : (v : Value) → IsBool v → Returns (bool j v)
  unfolding bool
  bool-Returns v (b, e) = (b, rw e)

  pub string-Returns : (v : Value) → IsString v → Returns (string j v)
  unfolding string
  string-Returns v (s, e) = (c_str s, rw e)

  pub int-Returns : (v : Value) → IsInt v → Returns (int j v)
  unfolding int
  int-Returns v (n, e) = (n, rw e)

  All-imp {ℓ κ} :
      {A : Type 0} {P : A → Type ℓ} {Q : A → Type κ}
      → ((x : A) → P x → Q x)
      → (xs : List A) → All P xs
      → All Q xs
  All-imp f [] h = tt
  All-imp f (x ∷ xs) h = (f x h.0, All-imp f xs h.1)

  array-Returns {ℓ} :
      {B : Type ℓ} (f : Value → Decode B) (v : Value) (xs : List Value)
      → get_array v ≡ some xs
      → All (λ x. Returns (f x)) xs
      → Returns (do values ← array j v; map_decode f values)
  unfolding array
  array-Returns f v xs e h = let (b, r) = map_decode-Returns f xs h in (b, rw e r)

  pub markup_kinds-Returns : (v : Value) → IsStringArray v → Returns (markup_kinds j v)
  unfolding markup_kinds
  markup_kinds-Returns v (xs, e, h) =
      array-Returns _ v xs e
        (All-imp (λ x s. bind-Returns (string-Returns x s) λ t. (_, refl)) xs h)

  pub completion_item_kinds-Returns :
      (v : Value) → IsIntArray v → Returns (completion_item_kinds j v)
  unfolding completion_item_kinds
  completion_item_kinds-Returns v (xs, e, h) =
      array-Returns _ v xs e (All-imp (λ x s. bind-Returns (int-Returns x s) λ t. (_, refl)) xs h)

  pub symbol_kinds-Returns : (v : Value) → IsIntArray v → Returns (symbol_kinds j v)
  unfolding symbol_kinds
  symbol_kinds-Returns v (xs, e, h) =
      array-Returns _ v xs e (All-imp (λ x s. bind-Returns (int-Returns x s) λ t. (_, refl)) xs h)

  -- A member that is missing, null or of a shape under which its decoder returns.
  pub optional-Returns {ℓ} :
      {A : Type ℓ} {P : Value → Type 0} (f : Value → Decode A)
      → ((x : Value) → P x → Returns (f x))
      → (v : Value) (k : Bytes) → Member j P v k
      → Returns (optional j f v k)
  optional-Returns f g v k (o, inl e) = Decode.optional-Returns j f v k (o, inl e)
  optional-Returns f g v k (o, inr (x, e, inl n)) =
      Decode.optional-Returns j f v k (o, inr (x, e, inl n))
  optional-Returns f g v k (o, inr (x, e, inr p)) =
      Decode.optional-Returns j f v k (o, inr (x, e, inr (g x p)))

  pub optional-Member {ℓ} :
      {A : Type ℓ} {P : Value → Type 0} (f : Value → Decode A)
      → ((x : Value) → Returns (f x) → P x)
      → (v : Value) (k : Bytes) → Returns (optional j f v k)
      → Member j P v k
  optional-Member f g v k r = Decode.optional-Member j f g v k r

  pub bool-Conforms : (v : Value) → Returns (bool j v) → IsBool v
  unfolding bool
  bool-Conforms v r = asserted-Returns_inv r

  int-IsInt : (v : Value) → Returns (int j v) → IsInt v
  unfolding int
  int-IsInt v r = asserted-Returns_inv r

  string-IsString : (v : Value) → Returns (string j v) → IsString v
  unfolding string
  string-IsString v r = let (s, e, _) = bind-Returns_inv r in asserted-Returns_inv (s, e)

  array-Returns_inv {ℓ} :
      {B : Type ℓ} {P : Value → Type 0} (f : Value → Decode B)
      → ((x : Value) → Returns (f x) → P x)
      → (v : Value) → Returns (do values ← array j v; map_decode f values)
      → (xs : List Value) × (get_array v ≡ some xs) × All P xs
  unfolding array
  array-Returns_inv f g v r =
      let (xs, e, r') = bind-Returns_inv r in
      (xs, asserted-eq-ok _ e, All-imp g xs (map_decode-Returns_inv f xs r'))

  pub markup_kinds-Conforms : (v : Value) → Returns (markup_kinds j v) → IsStringArray v
  unfolding markup_kinds
  markup_kinds-Conforms v r =
      array-Returns_inv _ (λ x t. let (s, e, _) = bind-Returns_inv t in string-IsString x (s, e)) v
        r

  pub completion_item_kinds-Conforms :
      (v : Value) → Returns (completion_item_kinds j v) → IsIntArray v
  unfolding completion_item_kinds
  completion_item_kinds-Conforms v r =
      array-Returns_inv _ (λ x t. let (s, e, _) = bind-Returns_inv t in int-IsInt x (s, e)) v r

  pub symbol_kinds-Conforms : (v : Value) → Returns (symbol_kinds j v) → IsIntArray v
  unfolding symbol_kinds
  symbol_kinds-Conforms v r =
      array-Returns_inv _ (λ x t. let (s, e, _) = bind-Returns_inv t in int-IsInt x (s, e)) v r
