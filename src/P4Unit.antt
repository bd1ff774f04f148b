-- ===== src/P4Unit.antt =====
-- server/lsp/p4unit.h and p4unit.cpp: one open document.
pub mod Index
pub mod Edit
pub mod File
