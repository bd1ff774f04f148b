-- ===== src/Protocol.antt =====
-- server/lsp/protocol.h and protocol.cpp: the data of the language server protocol.
pub mod Range
pub mod Kinds
pub mod Capabilities
pub mod Uri
pub mod Params
pub mod Encode
pub mod ServerCapabilities
