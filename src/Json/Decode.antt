-- ===== src/Json/Decode.antt =====
-- Decoders: a value is read, or the message is refused (`return false`), or an assertion of the
-- JSON library fails and the server aborts.
use p4ls.Prelude.{
  ◌≡◌, ◌⊎◌, inl, inr, Bool, true, false, Option, none, some, List, [], ◌∷◌, Bytes, is_some,
  if◌then◌else◌, c_str, Bool-cases, Option-cases, refl, sym, ◌∙◌,
}
use p4ls.Prelude.Int.{ℤ}
use p4ls.Json.{Json}

pub data Decode {ℓ} (A : Type ℓ) : Type ℓ where
  ok : A → Decode A
  refused : Decode A
  fault : Decode A

infixl 5 ◌>>=◌ ◌>>◌
abbrev pub ◌>>=◌ {ℓ κ} : {A : Type ℓ} {B : Type κ} → Decode A → (A → Decode B) → Decode B
ok a >>= f = f a
refused >>= f = refused
fault >>= f = fault

abbrev pub ◌>>◌ {ℓ} : {B : Type ℓ} → Decode (Unit {0}) → Decode B → Decode B
m >> k = m >>= λ _. k

-- `if (!test) return false`
abbrev pub guard : Bool → Decode (Unit {0})
guard true = ok tt
guard false = refused

abbrev pub asserted {ℓ} : {A : Type ℓ} → Option A → Decode A
asserted none = fault
asserted (some a) = ok a

module _ {ℓ κ} {A : Type ℓ} {B : Type κ} where
  -- The loop over an array.
  abbrev pub map_decode : (A → Decode B) → List A → Decode (List B)
  map_decode f [] = ok []
  map_decode f (x ∷ xs) = do y ← f x; ys ← map_decode f xs; ok (y ∷ ys)

-- A decoder returns a value: it neither refuses nor aborts.
abbrev pub Returns {ℓ} : {A : Type ℓ} → Decode A → Type ℓ
Returns {A} m = (a : A) × (m ≡ ok a)

pub bind-Returns {ℓ κ} :
    {A : Type ℓ} {B : Type κ} {m : Decode A} {f : A → Decode B}
    → Returns m
    → ((a : A) → Returns (f a))
    → Returns (m >>= f)
bind-Returns (a, e) next = let (b, e') = next a in (b, rw e e')

-- A chain that returns has returned at each step.
pub bind-Returns_inv {ℓ κ} :
    {A : Type ℓ} {B : Type κ} {m : Decode A} {f : A → Decode B}
    → Returns (m >>= f)
    → (a : A) × (m ≡ ok a) × Returns (f a)
bind-Returns_inv {A} {m} {f} r = go m r
  where
    go : (n : Decode A) → Returns (n >>= f) → (a : A) × (n ≡ ok a) × Returns (f a)
    go (ok a) r = (a, refl, r)
    go refused r = cc r.1
    go fault r = cc r.1

pub asserted-eq-ok {ℓ} : {A : Type ℓ} (o : Option A) {a : A} → asserted o ≡ ok a → o ≡ some a
asserted-eq-ok none e = cc
asserted-eq-ok (some b) e = cc

pub asserted-Returns_inv {ℓ} :
    {A : Type ℓ} {o : Option A} → Returns (asserted o) → (a : A) × (o ≡ some a)
asserted-Returns_inv {o} (a, e) = (a, asserted-eq-ok o e)

module _ (j : Json) where
  open j use {Value, is_object, is_null, find_member, get_string, get_int, get_bool, get_array}

  -- `HasMember`, `FindMember` and `operator[]`, which assert that the value is an object; the
  -- last also asserts that the member is there.
  unfoldable pub has_member : Value → Bytes → Decode Bool
  has_member v k = if is_object v then ok (is_some (find_member v k)) else fault

  unfoldable pub find : Value → Bytes → Decode (Option Value)
  find v k = if is_object v then ok (find_member v k) else fault

  unfoldable pub member : Value → Bytes → Decode Value
  member v k = if is_object v then asserted (find_member v k) else fault

  unfoldable pub string : Value → Decode Bytes
  string v = do s ← asserted (get_string v); ok (c_str s)

  unfoldable pub int : Value → Decode ℤ
  int v = asserted (get_int v)

  unfoldable pub bool : Value → Decode Bool
  bool v = asserted (get_bool v)

  unfoldable pub array : Value → Decode (List Value)
  array v = asserted (get_array v)

  -- `if (json.HasMember(k) && !json[k].IsNull()) field.emplace(f(json[k]))`
  unfoldable pub optional {ℓ} :
      {A : Type ℓ} → (Value → Decode A) → Value → Bytes → Decode (Option A)
  unfolding has_member member
  optional f v k = do
    present ← has_member v k
    if present
        then (do x ← member v k; if is_null x then ok none else (do a ← f x; ok (some a)))
        else ok none

  -- The member is missing, or null, or a value that `P` holds of.
  abbrev pub Member {ℓ} : (Value → Type ℓ) → Value → Bytes → Type ℓ
  Member P v k =
      (is_object v ≡ true)
      × ((find_member v k ≡ none)
          ⊎ ((x : Value) × (find_member v k ≡ some x) × ((is_null x ≡ true) ⊎ P x)))

  pub optional-Returns {ℓ} :
      {A : Type ℓ} (f : Value → Decode A) (v : Value) (k : Bytes)
      → Member (λ x. Returns (f x)) v k
      → Returns (optional f v k)
  unfolding optional
  optional-Returns f v k (o, inl e) = (none, rw (o, e))
  optional-Returns f v k (o, inr (x, e, inl n)) = (none, rw (o, e) (rw n))
  optional-Returns f v k (o, inr (x, e, inr (a, r))) = elim (Bool-cases (is_null x)) [
    | inl n ↦ (none, rw (o, e) (rw n))
    | inr n ↦ (some a, rw (o, e) (rw n (rw r)))
  ]

  optional-some {ℓ} :
      {A : Type ℓ} (f : Value → Decode A) (v x : Value) (k : Bytes)
      → is_object v ≡ true
      → find_member v k ≡ some x
      → is_null x ≡ false
      → optional f v k ≡ (do a ← f x; ok (some a))
  unfolding optional
  optional-some f v x k o e n = rw (o, e) (rw n)

  optional-no_object {ℓ} :
      {A : Type ℓ} (f : Value → Decode A) (v : Value) (k : Bytes)
      → is_object v ≡ false
      → optional f v k ≡ fault
  unfolding optional
  optional-no_object f v k o = rw o

  pub optional-Member {ℓ} :
      {A : Type ℓ} {P : Value → Type 0} (f : Value → Decode A)
      → ((x : Value) → Returns (f x) → P x)
      → (v : Value) (k : Bytes) → Returns (optional f v k)
      → Member P v k
  optional-Member f g v k r = elim (Bool-cases (is_object v)) [
    | inr o ↦ cc (optional-no_object f v k o, r.1)
    | inl o ↦ elim (Option-cases (find_member v k)) [
      | inl e ↦ (o, inl e)
      | inr (x, e) ↦ elim (Bool-cases (is_null x)) [
        | inl n ↦ (o, inr (x, e, inl n))
        | inr n ↦ (
          o,
          inr (
            x,
            e,
            inr (
                g x (
                  let (a, h, _) = bind-Returns_inv (r.0, sym (optional-some f v x k o e n) ∙ r.1) in
                  (a, h))),
          ),
        )
      ]
    ]
  ]
