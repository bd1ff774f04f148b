-- ===== src/Lexer/Scan/Ends.antt =====
-- The search for a token ends where no block comment is left open: fuel for each character is enough.
use p4ls.Lexer.{Lexer, Lexed}
