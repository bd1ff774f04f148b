-- ===== src/Protocol/Range.antt =====
-- Ranges and locations: server/lsp/protocol.h and the comparisons of protocol.cpp.
use p4ls.Prelude.{
  ℕ, ◌+◌, ◌-◌, ◌%◌, ◌^◌, Bool, ◌&&◌, ◌||◌, Bytes, ltb, leb, ◌==◌, equal, text_lt, ◌++◌, codes,
}
use p4ls.Prelude.Decimal.{to_string}
use p4ls.Info.{Position, Info, get_start, get_end, get_line_number, get_column_number}
pub mod Order

pub record Range : Type 0 where
  pub start : Position
  pub finish : Position

-- `Range::set`: lines are counted from one in `Info` and are `unsigned int`, so line 0 wraps.
abbrev pub set : Info → Range
unfolding get_start get_end get_line_number get_column_number
set info = record {
  start = record {
    line = (get_line_number (get_start info) + 2 ^ 32 - 1) % 2 ^ 32;
    character = get_column_number (get_start info);
  };
  finish = record {
    line = (get_line_number (get_end info) + 2 ^ 32 - 1) % 2 ^ 32;
    character = get_column_number (get_end info);
  };
}

-- `operator<` of ranges: by where they start.
infix 50 ◌&ᵇ◌
unfoldable pub range_lt : Range → Range → Bool
range_lt lhs rhs =
    ltb lhs.start.line rhs.start.line
    || (lhs.start.line == rhs.start.line && ltb lhs.start.character rhs.start.character)

-- `operator&`: does `lhs` hold the start of `rhs`?
unfoldable pub ◌&ᵇ◌ : Range → Range → Bool
lhs &ᵇ rhs =
    lhs.start.line == rhs.start.line
    && leb lhs.start.character rhs.start.character
    && leb rhs.finish.line lhs.finish.line
    && leb rhs.start.character lhs.finish.character

-- `operator<<` of ranges.
abbrev pub range_text : Range → Bytes
range_text range =
    to_string range.start.line
    ++ codes ":"
    ++ to_string range.start.character
    ++ codes "-"
    ++ to_string range.finish.line
    ++ codes ":"
    ++ to_string range.finish.character

pub record Location : Type 0 where
  pub uri : Bytes
  pub range : Range

-- `operator==` of locations.
unfoldable pub same_location : Location → Location → Bool
same_location lhs rhs =
    equal lhs.uri rhs.uri
    && lhs.range.start.line == rhs.range.start.line
    && lhs.range.start.character == rhs.range.start.character
    && lhs.range.finish.line == rhs.range.finish.line
    && lhs.range.finish.character == rhs.range.finish.character

-- `operator<` of locations: by text, then by where their ranges start.
unfoldable pub location_lt : Location → Location → Bool
location_lt lhs rhs =
    text_lt lhs.uri rhs.uri
    || (equal lhs.uri rhs.uri
        && (ltb lhs.range.start.line rhs.range.start.line
            || (lhs.range.start.line == rhs.range.start.line
                && ltb lhs.range.start.character rhs.range.start.character)))

-- `operator<<` of locations.
abbrev pub location_text : Location → Bytes
location_text location = location.uri ++ codes "#" ++ range_text location.range
