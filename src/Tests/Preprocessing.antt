-- ===== src/Tests/Preprocessing.antt =====
-- The preprocessor's iterator over a small text.
use p4ls.Prelude.{◌+◌, ◌%◌, ◌^◌, ◌≡◌, refl, false, some, [], codes, if◌then◌else◌}
use p4ls.Token
use p4ls.Token.{Token, has_newline, move_to}
use p4ls.Slex.Iterator
use p4ls.Slex.Iterator.{LexIterator, get_next, set_position-get_next}
use p4ls.Tests.Wave.{Place, places, Cursor, input}

abbrev here : Place
here = record { file = codes "a.p4"; line = 3; column = 3 }

abbrev left : Cursor
left = record { text = codes "b"; place = here; ended = false }

abbrev iterator : LexIterator places input
iterator = record { current = record { id = 301; value = codes "\n"; pos = here }; functor = left }

abbrev there : Place
there = record { file = codes "b.p4"; line = 9; column = 9 }

abbrev moved_name : Token places
moved_name = record {
  id = 302;
  value = codes "b";
  pos = record { file = codes "b.p4"; line = 10; column = 3 };
}

abbrev moved_iterator : LexIterator places input
moved_iterator = record {
  current = moved_name;
  functor = record {
    text = [];
    place = record { file = codes "b.p4"; line = 10; column = 4 };
    ended = false;
  };
}

next_name :
    get_next places input (Iterator.set_position places input there iterator)
    ≡ (some moved_name, moved_iterator)
unfolding get_next Iterator.set_position move_to Token.set_position has_newline
next_name = refl

set_position-get_next_example :
    (moved_name.pos.file ≡ codes "b.p4")
    × (moved_name.pos.line ≡ (if has_newline places (codes "\n") then (9 + 1) % 2 ^ 64 else 9))
    × (moved_name.pos.column ≡ 3)
set_position-get_next_example =
    set_position-get_next places input there iterator moved_iterator moved_name refl refl next_name
