-- ===== src/Parser.antt =====
-- The syntax tree of server/p4l/ast.h, and the loop of server/p4l/parser.cpp. The type `Token` of a
-- token's kind, which these files name and no other declares, is a parameter, and so is the lexer.
use p4ls.Prelude.{
  ℕ, zero, suc, ◌≡◌, ◌≢◌, ◌↔◌, refl, Bool, true, Option, none, some, List, Bytes, if◌then◌else◌,
  arith,
}
use p4ls.Prelude.Int.{ℤ}

-- The tokens of the loop; the test is the comparison of the switch.
pub record Kinds : Type 1 where
  pub K : Type 0
  pub start : K
  pub end : K
  pub is_end : K → Bool
  pub is_end_iff : (k : K) → (is_end k ≡ true) ↔ (k ≡ end)
  pub start-end : start ≢ end

module _ (kinds : Kinds) (Lexer : Type 0) (new_lexer : Bytes → Lexer) where
  open kinds use {K, start, end, is_end, is_end_iff, start-end}

  -- Expressions, and the pointers to them, which may be null.
  mutual
    pub data ExprAst : Type 0 where
      number_expr : ℤ → ℕ → ExprAst
      variable_expr : Bytes → ExprAst
      binary_expr : K → ExprPtr → ExprPtr → ExprAst

    pub data ExprPtr : Type 0 where
      null : ExprPtr
      points_to : ExprAst → ExprPtr

  -- The constructor takes no width.
  new_number : ℤ → ExprAst
  new_number value = number_expr value 32

  pub record PrototypeAst : Type 0 where
    pub name : Bytes
    pub args : List Bytes

  unfoldable pub get_name : PrototypeAst → Bytes
  get_name proto = proto.name

  pub record FunctionAst : Type 0 where
    pub proto : Option PrototypeAst
    pub body : ExprPtr

  pub record Parser : Type 0 where
    pub token : K
    pub lexer : Lexer

  new_parser : Bytes → Parser
  new_parser is = record { token = start; lexer = new_lexer is }

  -- The rounds of the loop: none if it has not returned.
  unfoldable pub run : ℕ → Parser → Option Parser
  run zero parser = none
  run (suc fuel) parser =
      let rest = run fuel parser in if is_end parser.token then some parser else rest

  -- A new parser never returns, whatever its input and however many rounds its loop is given.
  run-new_parser : (fuel : ℕ) (is : Bytes) → run fuel (new_parser is) ≡ none
  unfolding run new_parser
  run-new_parser zero is = refl
  run-new_parser (suc fuel) is =
      let rest = run-new_parser fuel is in
      let test = is_end_iff start in ground (arith, rest, test, start-end)
