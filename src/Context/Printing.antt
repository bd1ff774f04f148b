-- ===== src/Context/Printing.antt =====
-- How a context is written to the log: the two operators of server/lsp/context.cpp. The texts of a
-- key's address and of a value are parameters.
use p4ls.Prelude.{
  ℕ, suc, ◌≡◌, refl, List, [], ◌∷◌, ◌++◌, Bytes, codes, count, count-append, length, arith,
}
use p4ls.Context.{Anything, Layer, Context}

module _ (key_text : ℕ → Bytes) (value_text : Anything → Bytes) where
  -- A layer with the layers below it; each layer has a value.
  unfoldable data_text : Layer → List Layer → Bytes
  data_text layer [] =
      codes "key:\""
      ++ key_text layer.key
      ++ codes "\", value:\""
      ++ value_text layer.value
      ++ codes "\", parent:{"
      ++ codes "(null)"
      ++ codes "}"
  data_text layer (parent ∷ parents) =
      codes "key:\""
      ++ key_text layer.key
      ++ codes "\", value:\""
      ++ value_text layer.value
      ++ codes "\", parent:{"
      ++ data_text parent parents
      ++ codes "}"

  unfoldable context_text : Context → Bytes
  context_text [] = codes "{(null)}"
  context_text (layer ∷ parents) = codes "{" ++ data_text layer parents ++ codes "}"

  data_text-opens :
      (layer : Layer) (parents : List Layer)
      → ((k : ℕ) → count b'{' (key_text k) ≡ 0)
      → ((v : Anything) → count b'{' (value_text v) ≡ 0)
      → count b'{' (data_text layer parents) ≡ suc (length parents)
  unfolding data_text
  data_text-opens layer [] k v = simp count-append (omega (arith, k layer.key, v layer.value))
  data_text-opens layer (parent ∷ parents) k v =
      simp count-append
        (omega (arith, k layer.key, v layer.value, data_text-opens parent parents k v))

  data_text-closes :
      (layer : Layer) (parents : List Layer)
      → ((k : ℕ) → count b'}' (key_text k) ≡ 0)
      → ((v : Anything) → count b'}' (value_text v) ≡ 0)
      → count b'}' (data_text layer parents) ≡ suc (length parents)
  unfolding data_text
  data_text-closes layer [] k v = simp count-append (omega (arith, k layer.key, v layer.value))
  data_text-closes layer (parent ∷ parents) k v =
      simp count-append
        (omega (arith, k layer.key, v layer.value, data_text-closes parent parents k v))

  -- Where no text of a key or a value has a brace, a printed context has a brace of each kind for
  -- each layer and one more.
  context_text-braces :
      (context : Context)
      → ((k : ℕ) → (count b'{' (key_text k) ≡ 0) × (count b'}' (key_text k) ≡ 0))
      → ((v : Anything) → (count b'{' (value_text v) ≡ 0) × (count b'}' (value_text v) ≡ 0))
      → (count b'{' (context_text context) ≡ suc (length context))
        × (count b'}' (context_text context) ≡ suc (length context))
  unfolding context_text
  context_text-braces [] k v = (refl, refl)
  context_text-braces (layer ∷ parents) k v =
      let opens = data_text-opens layer parents (λ n. (k n).0) (λ a. (v a).0) in
      let closes = data_text-closes layer parents (λ n. (k n).1) (λ a. (v a).1) in
      (simp count-append (omega (arith, opens)), simp count-append (omega (arith, closes)))
