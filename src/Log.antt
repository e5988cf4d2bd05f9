-- ===== src/Log.antt =====
-- src/app/cbe_tester/main.cc, src/app/cbe_check/main.cc and src/app/cbe_dump/main.cc: the function
-- `print_cstring_buffered`, by which the libraries written in Ada print, piece by piece.
--
-- The static buffer is the list of the characters that stand in it, in their order, with the room
-- that is left beside it, as in the source. What goes to Genode's log is a list of lines.
pub mod Lines
pub mod Tests
use cbe.Prelude.{ℕ, ◌-◌, ◌==◌, ◌||◌, if◌then◌else◌, List, [], ◌∷◌, ◌++◌}

abbrev pub buf_size : ℕ
buf_size = 256

abbrev pub newline : ℕ
newline = 10

pub record Printer : Type 0 where
  pub buf : List ℕ
  pub buf_left : ℕ
  pub logged : List (List ℕ)

abbrev pub empty_printer : Printer
empty_printer = record { buf = []; buf_left = buf_size; logged = [] }

-- one character
unfoldable pub print_char : ℕ → Printer → Printer
print_char c p =
    if c == newline || p.buf_left == 0
    then record { buf = []; buf_left = buf_size; logged = p.logged ++ p.buf ∷ [] }
    else record { buf = p.buf ++ c ∷ []; buf_left = p.buf_left - 1; logged = p.logged }

-- `print_cstring_buffered`
unfoldable pub print : List ℕ → Printer → Printer
unfolding print_char
print [] p = p
print (c ∷ cs) p = print cs (print_char c p)
