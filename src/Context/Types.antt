-- ===== src/Context/Types.antt =====
-- The types of the values under typed keys: `get_value` of server/lsp/context.h casts the pointer
-- that it finds to the type of the key, `Key<T>`, and nothing checks that cast.
use p4ls.Prelude.{
  ℕ, ◌≡◌, ◌∙◌, ap, sym, Option, none, some, List, [], ◌∷◌, ◌++◌, ◌==◌, All, Bool-cases, inl, inr,
  arith,
}
use p4ls.Context.{
  Anything, int_value, stream_value, Layer, Context, get_value, derive, swap_current,
}
use p4ls.Context.Scopes.{Block, finish, read, with_value, with_anonymous, construct, destroy, run}

-- The types that values are stored with.
pub data Kind : Type 0 where
  int_kind : Kind
  stream_kind : Kind

unfoldable pub kind_of : Anything → Kind
kind_of (int_value n) = int_kind
kind_of (stream_value s) = stream_kind

module _ (kind : ℕ → Kind) where
  -- Each value has the type of its key.
  abbrev IsTyped : Context → Type 0
  IsTyped context = All (λ (layer : Layer). kind_of layer.value ≡ kind layer.key) context

  -- What the compiler checks of a program.
  abbrev pub Compiles : Block → Type 0
  Compiles finish = Unit
  Compiles (read key rest) = Compiles rest
  Compiles (with_value key value body rest) =
      (kind_of value ≡ kind key) × Compiles body × Compiles rest
  Compiles (with_anonymous value body rest) = Compiles body × Compiles rest

  -- A value that is read has the type of the key that it is cast to.
  abbrev pub CastsWell : ℕ × Option Anything → Type 0
  CastsWell (key, none) = Unit
  CastsWell (key, some value) = kind_of value ≡ kind key

  get_value-CastsWell :
      (key : ℕ) (context : Context) → IsTyped context → CastsWell (key, get_value key context)
  unfolding get_value
  get_value-CastsWell key [] h = tt
  get_value-CastsWell key (layer ∷ parents) (p, h) = elim (Bool-cases (layer.key == key)) [
    | inl e ↦ let same : layer.key ≡ key = ground (arith, e) in rw e (p ∙ ap kind same)
    | inr e ↦ rw e (get_value-CastsWell key parents h)
  ]

  All-append :
      (xs ys : List (ℕ × Option Anything))
      → All CastsWell xs
      → All CastsWell ys
      → All CastsWell (xs ++ ys)
  All-append [] ys h k = k
  All-append (x ∷ xs) ys (p, h) k = (p, All-append xs ys h k)

  -- If a program compiles, where a value without a key has a key of its own type, and starts in a
  -- context that holds each value under a key of its type, every value that it reads has the type
  -- that the pointer is cast to.
  pub run-CastsWell :
      (private_key : Anything → ℕ) (program : Block) (context : Context)
      → ((value : Anything) → kind (private_key value) ≡ kind_of value)
      → Compiles program
      → All (λ (layer : Layer). kind_of layer.value ≡ kind layer.key) context
      → All CastsWell (run private_key program context).0
  unfolding run construct destroy swap_current derive
  run-CastsWell k finish context h c t = tt
  run-CastsWell k (read key rest) context h c t =
      (get_value-CastsWell key context t, run-CastsWell k rest context h c t)
  run-CastsWell k (with_value key value body rest) context h (v, b, c) t =
      All-append _ _ (run-CastsWell k body (derive key value context) h b (v, t))
        (run-CastsWell k rest context h c t)
  run-CastsWell k (with_anonymous value body rest) context h (b, c) t =
      All-append _ _ (run-CastsWell k body (derive (k value) value context) h b (sym (h value), t))
        (run-CastsWell k rest context h c t)
