-- ===== src/Log/Tests.antt =====
-- Texts printed by `print_cstring_buffered`.
use cbe.Prelude.{ℕ, zero, suc, ◌≡◌, arith, List, [], ◌∷◌, ◌++◌, length, refl}
use cbe.Log.{print, empty_printer}
use cbe.Log.Lines.{print-lines, lines, last_line, Sized}

-- the text "ab", newline, "c"
abbrev text : List ℕ
text = 97 ∷ 98 ∷ 10 ∷ 99 ∷ []

print-lines_example :
    ((print text empty_printer).logged ≡ [] ++ lines [] text)
    × ((print text empty_printer).buf ≡ last_line [] text)
    × Sized (print text empty_printer)
print-lines_example =
    print-lines text empty_printer refl (omega arith, (omega arith, (omega arith, tt)))

abbrev repeated : ℕ → List ℕ
repeated zero = []
repeated (suc n) = 97 ∷ repeated n

-- In a line that is longer than the buffer, the character that comes when the buffer is full is
-- lost: it is neither logged nor kept.
print-full : length ((print (repeated 256 ++ 98 ∷ []) empty_printer).buf) ≡ 0
unfolding print
print-full = refl

print-full_logged : (print (repeated 256 ++ 98 ∷ []) empty_printer).logged ≡ repeated 256 ∷ []
unfolding print
print-full_logged = refl
