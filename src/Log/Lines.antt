-- ===== src/Log/Lines.antt =====
-- What `print_cstring_buffered` makes of a text: the lines of the text.
use cbe.Prelude.{
  ℕ, ◌+◌, ◌-◌, ◌<◌, ◌≡◌, ◌==◌, ◌||◌, ◌∙◌, Bool, true, false, if◌then◌else◌, List, [], ◌∷◌, ◌++◌,
  length, length-append, arith, if_elim, refl, subst, ap, sym, Bool-cases, inl, inr,
}
use mathlib.Core.List.{append_assoc, append-nil}
use cbe.Log.{Printer, print, print_char, newline, buf_size}

-- The lines of a text that are complete, and the characters of the last one; `line` is what is
-- known of the first line already.
abbrev pub lines : List ℕ → List ℕ → List (List ℕ)
lines line [] = []
lines line (c ∷ cs) =
    let rest = lines [] cs in
    let longer = lines (line ++ c ∷ []) cs in if c == newline then line ∷ rest else longer

abbrev pub last_line : List ℕ → List ℕ → List ℕ
last_line line [] = line
last_line line (c ∷ cs) =
    let rest = last_line [] cs in
    let longer = last_line (line ++ c ∷ []) cs in if c == newline then rest else longer

-- No line of the text has more characters than the buffer.
abbrev pub Short : ℕ → List ℕ → Type 0
Short n [] = Unit
Short n (c ∷ cs) = if c == newline then Short 0 cs else (n < buf_size) × Short (n + 1) cs

Short-newline : (n c : ℕ) (cs : List ℕ) → (c == newline) ≡ true → Short n (c ∷ cs) → Short 0 cs
Short-newline n c cs e h = rw e at h

Short-other :
    (n c : ℕ) (cs : List ℕ)
    → (c == newline) ≡ false
    → Short n (c ∷ cs)
    → (n < buf_size) × Short (n + 1) cs
Short-other n c cs e h = rw e at h

-- The room that is left goes with the characters in the buffer.
abbrev pub Sized : Printer → Type 0
Sized p = length p.buf + p.buf_left ≡ buf_size

-- What a text is printed to.
abbrev Printed : List ℕ → Printer → List (List ℕ) → List ℕ → Type 0
Printed text p ls last =
    ((print text p).logged ≡ p.logged ++ ls) × ((print text p).buf ≡ last) × Sized (print text p)

print_newline :
    (c : ℕ) (p : Printer)
    → (c == newline) ≡ true
    → print_char c p ≡ record { buf = []; buf_left = buf_size; logged = p.logged ++ p.buf ∷ [] }
unfolding print_char
print_newline c p e = rw e

print_other :
    (c : ℕ) (p : Printer)
    → (c == newline) ≡ false
    → Sized p
    → length p.buf < buf_size
    → print_char c p
      ≡ record { buf = p.buf ++ c ∷ []; buf_left = p.buf_left - 1; logged = p.logged }
unfolding print_char
print_other c p e s h =
    if_elim
      (λ q. q ≡ record { buf = p.buf ++ c ∷ []; buf_left = p.buf_left - 1; logged = p.logged })
      (c == newline || p.buf_left == 0) _ _ (λ f. absurd (ground arith)) (λ _. refl)

print_cons :
    (c : ℕ) (cs : List ℕ) (p q : Printer)
    → print_char c p ≡ q
    → (ls : List (List ℕ)) (last : List ℕ)
    → ((print cs q).logged ≡ p.logged ++ ls) × ((print cs q).buf ≡ last) × Sized (print cs q)
    → Printed (c ∷ cs) p ls last
unfolding print
print_cons c cs p q e ls last h =
    subst
      (λ z. ((print cs z).logged ≡ p.logged ++ ls) × ((print cs z).buf ≡ last) × Sized (print cs z))
      (sym e) h

pick_true {ℓ} : {A : Type ℓ} (x y : A) (b : Bool) → b ≡ true → (if b then x else y) ≡ x
pick_true x y b e = rw e

pick_false {ℓ} : {A : Type ℓ} (x y : A) (b : Bool) → b ≡ false → (if b then x else y) ≡ y
pick_false x y b e = rw e

-- Where no line is longer than the buffer: the text that is printed, in pieces or at once, is
-- logged line by line, each line once and whole, and the last line waits in the buffer.
pub print-lines :
    (text : List ℕ) (p : Printer)
    → Sized p
    → Short (length p.buf) text
    → ((print text p).logged ≡ p.logged ++ lines p.buf text)
      × ((print text p).buf ≡ last_line p.buf text)
      × Sized (print text p)
unfolding print
print-lines [] p s h = (sym (append-nil p.logged), refl, s)
print-lines (c ∷ cs) p s h = elim (Bool-cases (c == newline)) [
  | inl e ↦
      let q : Printer = record { buf = []; buf_left = buf_size; logged = p.logged ++ p.buf ∷ [] } in
      let rest = print-lines cs q (omega arith) (Short-newline (length p.buf) c cs e h) in
      let (logged, buf, sized) =
        print_cons c cs p q (print_newline c p e) (p.buf ∷ lines [] cs) (last_line [] cs)
          (rest.0 ∙ append_assoc p.logged (p.buf ∷ []) (lines [] cs), rest.1, rest.2) in
      (
        logged ∙ ap (λ l. p.logged ++ l) (sym (pick_true _ _ (c == newline) e)),
        buf ∙ sym (pick_true _ _ (c == newline) e),
        sized,
      )
  | inr e ↦
      let q : Printer = record {
        buf = p.buf ++ c ∷ [];
        buf_left = p.buf_left - 1;
        logged = p.logged;
      } in
      let (room, later) = Short-other (length p.buf) c cs e h in
      let longer = length-append p.buf (c ∷ []) in
      let rest =
        print-lines cs q (omega (arith, longer, s, room))
          (subst (λ n. Short n cs) (sym longer) later) in
      let (logged, buf, sized) =
        print_cons c cs p q (print_other c p e s room) (lines (p.buf ++ c ∷ []) cs)
          (last_line (p.buf ++ c ∷ []) cs) rest in
      (
        logged ∙ ap (λ l. p.logged ++ l) (sym (pick_false _ _ (c == newline) e)),
        buf ∙ sym (pick_false _ _ (c == newline) e),
        sized,
      )
]
