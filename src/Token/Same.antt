-- ===== src/Token/Same.antt =====
-- Which tokens are equal, and what a token looks like in print.
use p4ls.Prelude.{
  ℕ, zero, suc, ◌≡◌, refl, ◌↔◌, Bool, true, false, List, [], ◌∷◌, ◌++◌, Bytes, codes, ◌==◌,
  equal_iff, if◌then◌else◌, All, ◌&◌, not, ◌&&◌, ◌||◌, arith,
}
use p4ls.Prelude.Decimal.{to_string, IsDigits, to_string-IsDigits}
use p4ls.Token.{
  Positions, Ids, Token, default_token, unknown_token, new_token, is_eoi, is_valid, set_token_id,
  set_value, set_position, same_token, escape, blanks, right, concat, pieces, print,
}

module _ (positions : Positions) where
  open positions use {P, get_file}

  -- Two tokens are equal exactly when they have one number and one text; where they stand makes no
  -- difference.
  pub same_token_iff :
      (a b : Token positions)
      → (same_token positions a b ≡ true) ↔ ((a.id ≡ b.id) × (a.value ≡ b.value))
  unfolding same_token
  same_token_iff a b = ground (arith, equal_iff a.value b.value)

module _ (positions : Positions) where
  open positions use {P, initial}

  -- A token without arguments is the end of the input, one of a number alone is not valid, and the
  -- setters make of any token the one that is built from their arguments.
  pub new_token-built :
      (ids : Ids) (n id : ℕ) (value : Bytes) (pos : P) (token : Token positions)
      → (is_eoi positions ids (default_token positions ids) ≡ true)
        × (is_valid positions ids (unknown_token positions ids n) ≡ false)
        × (set_token_id positions id (set_value positions value (set_position positions pos token))
            ≡ new_token positions id value pos)
  unfolding is_eoi default_token is_valid unknown_token set_token_id set_value set_position
      new_token
  new_token-built ids n id value pos token = (ground arith, ground arith, refl)

-- Neither a carriage return, nor a line feed, nor a tab.
abbrev pub IsPrinted : Bytes → Type 0
IsPrinted = All (λ c. ((c == b'\r') ≡ false) × ((c == b'\n') ≡ false) × ((c == b'\t') ≡ false))

abbrev no_breaks : Bytes → Bool
no_breaks [] = true
no_breaks (c ∷ s) = not (c == b'\r' || c == b'\n' || c == b'\t') && no_breaks s

no_breaks-IsPrinted : (s : Bytes) → no_breaks s ≡ true → IsPrinted s
no_breaks-IsPrinted [] e = tt
no_breaks-IsPrinted (c ∷ s) e =
    (ground arith, ground arith, ground arith) & no_breaks-IsPrinted s (ground (arith, e))

IsPrinted-append : (s t : Bytes) → IsPrinted s → IsPrinted t → IsPrinted (s ++ t)
IsPrinted-append [] t p q = q
IsPrinted-append (c ∷ s) t p q = (p.0, IsPrinted-append s t p.1 q)

if-IsPrinted :
    (b : Bool) (s t : Bytes)
    → (b ≡ true → IsPrinted s)
    → (b ≡ false → IsPrinted t)
    → IsPrinted (if b then s else t)
if-IsPrinted true s t p q = p refl
if-IsPrinted false s t p q = q refl

digits-IsPrinted : (s : Bytes) → IsDigits s → IsPrinted s
digits-IsPrinted [] d = tt
digits-IsPrinted (c ∷ s) d =
    ((ground (arith, d), ground (arith, d), ground (arith, d)), digits-IsPrinted s d.1)

module _ (positions : Positions) where
  open positions use {P, get_file, get_line, get_column}

  blanks-IsPrinted : (n : ℕ) → IsPrinted (blanks positions n)
  blanks-IsPrinted zero = tt
  blanks-IsPrinted (suc n) = ((refl, refl, refl), blanks-IsPrinted n)

  escape-IsPrinted : (s : Bytes) → IsPrinted (escape positions s)
  unfolding escape
  escape-IsPrinted [] = tt
  escape-IsPrinted (c ∷ s) =
      let rest = escape-IsPrinted s in
      if-IsPrinted (c == b'\r') _ _ (λ r. ((refl, refl, refl), ((refl, refl, refl), rest)))
        (λ r.
          if-IsPrinted (c == b'\n') _ _ (λ n. ((refl, refl, refl), ((refl, refl, refl), rest)))
            (λ n.
              if-IsPrinted (c == b'\t') _ _ (λ t. ((refl, refl, refl), ((refl, refl, refl), rest)))
                (λ t. ((r, n, t), rest))))

  number-IsPrinted : (width n : ℕ) → IsPrinted (right positions width (to_string n))
  number-IsPrinted width n =
      IsPrinted-append _ _ (blanks-IsPrinted _)
        (digits-IsPrinted (to_string n) (to_string-IsDigits n))

  concat-IsPrinted : (ss : List Bytes) → All IsPrinted ss → IsPrinted (concat positions ss)
  concat-IsPrinted [] p = tt
  concat-IsPrinted (s ∷ ss) p = IsPrinted-append s _ p.0 (concat-IsPrinted ss p.1)

  -- A token is printed on one line, whatever its text: where the names of its number and of its
  -- file hold no tab and no line break, nor does what is printed.
  pub print-IsPrinted :
      (ids : Ids) (token : Token positions)
      → IsPrinted (ids.get_token_name token.id)
      → IsPrinted (ids.base_id token.id)
      → IsPrinted (get_file token.pos)
      → IsPrinted (print positions ids token)
  unfolding print
  print-IsPrinted ids token name base file = concat-IsPrinted (pieces positions ids token) (
      IsPrinted-append _ _ name (blanks-IsPrinted _)
      & no_breaks-IsPrinted (codes " (#") refl
      & base
      & no_breaks-IsPrinted (codes ") at ") refl
      & file
      & no_breaks-IsPrinted (codes " (") refl
      & number-IsPrinted 3 (get_line token.pos)
      & no_breaks-IsPrinted (codes "/") refl
      & number-IsPrinted 2 (get_column token.pos)
      & no_breaks-IsPrinted (codes "): >") refl
      & escape-IsPrinted token.value
      & no_breaks-IsPrinted (codes "<") refl
      & tt)
