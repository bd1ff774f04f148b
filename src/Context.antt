-- ===== src/Context.antt =====
-- server/lsp/context.h and context.cpp: the values that belong to the message in work. A context is
-- a chain of layers that are never changed, so it is a list, the innermost layer first; the one
-- static context of a thread is part of the thread's state.
pub mod Scopes
pub mod Printing
pub mod Types
use p4ls.Prelude.{ℕ, ◌≡◌, refl, Option, none, some, List, [], ◌∷◌, ◌==◌, if◌then◌else◌}
use p4ls.Prelude.Int.{ℤ}

-- `Anything`: the two types of values that the server stores. A stream is known by its address.
pub data Anything : Type 0 where
  int_value : ℤ → Anything
  stream_value : ℕ → Anything

-- A layer (`Data`) without its parent. A key is known by its address.
pub record Layer : Type 0 where
  pub key : ℕ
  pub value : Anything

abbrev pub Context : Type 0
Context = List Layer

unfoldable pub create_empty : Context
create_empty = []

unfoldable pub get_value : ℕ → Context → Option Anything
get_value key [] = none
get_value key (layer ∷ parents) =
    if layer.key == key then some layer.value else get_value key parents

unfoldable pub derive : ℕ → Anything → Context → Context
derive key value context = record { key = key; value = value } ∷ context

-- The keys of server/lsp/dispatcher.cpp, two objects with different addresses.
abbrev pub request_id : ℕ
request_id = 1

abbrev pub request_output_stream : ℕ
request_output_stream = 2

-- `swap_current`: the new current context, and the one before.
unfoldable pub swap_current : Context → Context → Context × Context
swap_current other current = (other, current)

-- `get_existing`: none where the assertion fails.
unfoldable get_existing : ℕ → Context → Option Anything
get_existing key context = get_value key context

unfoldable clone : Context → Context
clone context = context

-- A layer hides the values of its key below it, and no others.
pub get_value-derive :
    (key other : ℕ) (value : Anything) (context : Context)
    → get_value other (derive key value context)
      ≡ (if key == other then some value else get_value other context)
unfolding get_value derive
get_value-derive key other value context = refl
