-- ===== src/Lib.antt =====
-- The language server p4ls for the P4 language: its core, modelled and proved.
--
-- The server speaks the Language Server Protocol on its standard streams. One thread reads framed
-- JSON messages (`LSP_server::run`, `read_message`) and posts them; a worker thread takes them from
-- the queue and hands them to the dispatcher, which finds the handler of the message's method, sets
-- the context (the id of the request, the output stream) and calls it. The handlers keep one
-- `P4_file` for each open document, edit its text and answer queries about it.
--
-- Which file models which part:
--   Prelude         texts as lists of bytes, maps as association lists, numbers as decimal texts
--   Json            the JSON library rapidjson as an interface; Json/Decode: reading a value, with
--                   a refusal (`return false`) and a failed assertion as outcomes
--   Info            server/p4l/info.h: positions
--   Protocol        server/lsp/protocol.h and protocol.cpp: Kinds (the enumerations), Range, Uri,
--                   Capabilities (what a client states), ServerCapabilities, Params (the parameters
--                   of the methods), Encode (what the server writes)
--   P4Unit          server/lsp/p4unit.h and p4unit.cpp: Index (`get_position_index`), Edit
--                   (`change_source_code`), File (the constructor, the queries and `compile` of `P4_file`)
--   Context         server/lsp/context.h and context.cpp: the chain of layers; Scopes
--                   (`Scoped_context`), Printing (the form that is logged)
--   Dispatcher      server/lsp/dispatcher.h and dispatcher.cpp: `call`, `send`, `reply`
--   Server          server/lsp/lsp_server.h and lsp_server.cpp: the object's state; Commands
--                   (`find_command_for_path`), Handlers (the `on_...` methods and their registration)
--   Transport       lsp_server.cpp: `read_message`; Transport/Loop: `run` and the worker;
--                   Transport/Interrupted: reads that a signal interrupts
--   Lexer           server/p4l/lexer.cpp: `get`, `advance`, words, texts, comments;
--                   Lexer/Number: `read_number`; Lexer/Scan: `next` and `read_other`
--   Token           server/p4l/p4lex_token.h, and `set_position` of p4lex_iterator.h
--   Daemon          server/daemon/main.cpp: the arguments; Log (the log, the signal handler, the exit)
--   Slex            server/p4l/p4lex_iterator.h: the iterator of the preprocessor over a lexer
--   Parser          server/p4l/ast.h and parser.cpp: the syntax tree and the loop of the parser
--   Tests           runs on concrete inputs, with a small JSON library and a small lexer
--
-- State is passed explicitly: a handler is a function on the `Thread` that runs it (current
-- context, bytes written, server object), and `none` is a call that does not come back: by a
-- failed assertion or an exception that nobody catches, or in a loop that never ends. The two
-- threads are a step relation, `Step`: any interleaving of rounds of the reader and of handlers on
-- the worker.
--
-- Parameters: rapidjson (`Json`, with its documented laws in `IsJson`), the file system, paths and
-- tokenizer of Boost and the preprocessor of Boost.Wave, which may not end (`Environment`,
-- `Wave`), its positions and token numbers (`Positions`, `Ids`), its lexer behind the iterator
-- (`LexInput`), the type of the parser's tokens (`Kinds`), and the files that a name opens
-- (`contents`). One tokenizer of `find_command_for_path` is built over a temporary text that is
-- gone when it is read: what it gives is a parameter without a law.
--
-- Bounds: `unsigned int` is `% 2 ^ 32`; `std::stoi` and `std::stoull` fail outside of their types;
-- sizes and indices of texts in memory do not overflow. The loop over a message's header runs on
-- fuel, the length of the input and two: each round takes a byte or is the last. The search for
-- `compile_commands.json` runs on the length of the path, enough where each parent is shorter; out
-- of fuel it has no result. The loop over a P4 text runs on the characters that are left and two;
-- the loops of a block comment run on fuel, for they need not end: two rounds more than there are
-- characters left decide whether they do. `next` calls itself behind a comment or a line marker,
-- on fuel for each character. A header whose reads are interrupted runs on the list of its reads.
--
-- Not modelled: what the methods log; `Symbol_collector` and the other code under `#if 0`; the
-- copy of the slex lexer of Boost.Wave in server/p4l/lexer.h; the factories of lexers in
-- server/p4l and the explicit instantiations; the clients.
pub mod Prelude
pub mod Json
pub mod Info
pub mod Protocol
pub mod P4Unit
pub mod Context
pub mod Dispatcher
pub mod Server
pub mod Transport
pub mod Tests
pub mod Lexer
pub mod Token
pub mod Slex
pub mod Parser
pub mod Daemon
