-- ===== src/Reader/Lines.antt =====
-- src/core/parser.c: a token that ends its line.
use mpi_local_lab.Base.{
  ℕ, some, ap, ◌+◌, ◌<◌, ◌≡◌, ◌==◌, refl, arith, false, List, [], ◌∷◌, ◌++◌, length, All, leb,
}
use mpi_local_lab.Base.Int.{ℤ, pos, ◌+ℤ◌, ◌-ℤ◌}
use mpi_local_lab.Reader.{
  is_space, line_after, newline, token_max, hash, word, skip, collect, lexer_next,
}

back_and_forth : (line : ℤ) → (line +ℤ pos 1) -ℤ pos 1 ≡ line
unfolding ◌+ℤ◌ ◌-ℤ◌
back_and_forth line = ground arith

line_after-same : (c : ℕ) (line : ℤ) → is_space c ≡ false → line_after c line ≡ line
unfolding line_after is_space
line_after-same c line h = ground (arith, h)

collect-newline :
    (len : ℕ) (line : ℤ) (rest : List ℕ)
    → collect len (line +ℤ pos 1) newline rest ≡ word [] (record { input = rest; line = line })
unfolding collect is_space
collect-newline len line [] = rw (back_and_forth line) refl
collect-newline len line (d ∷ ds) = rw (back_and_forth line) refl

collect-word :
    (len : ℕ) (line : ℤ) (c : ℕ) (cs rest : List ℕ)
    → is_space c ≡ false
    → All (λ d. is_space d ≡ false) cs
    → len + 1 + length cs < 64
    → collect len line c (cs ++ newline ∷ rest)
      ≡ word (c ∷ cs) (record { input = rest; line = line })
unfolding collect
collect-word len line c [] rest here all short =
    let shorter : leb token_max (len + 1) ≡ false = ground (arith, short) in
    rw (here, shorter, collect-newline (len + 1) line rest) refl
collect-word len line c (d ∷ ds) rest here all short =
    let after = collect-word (len + 1) line d ds rest all.0 all.1 (omega (arith, short)) in
    let shorter : leb token_max (len + 1) ≡ false = ground (arith, short) in
    rw (here, shorter, line_after-same d line all.0, after) refl

-- A token that a newline ends is returned with that newline consumed, and the number of the line
-- stays the same. It must be no comment, have no blanks and fit the buffer.
pub lexer_next-line_end :
    (line : ℤ) (c : ℕ) (cs rest : List ℕ)
    → is_space c ≡ false
    → (c == hash) ≡ false
    → All (λ d. is_space d ≡ false) cs
    → length cs < 63
    → lexer_next (record { input = c ∷ (cs ++ newline ∷ rest); line = line })
      ≡ word (c ∷ cs) (record { input = rest; line = line })
unfolding lexer_next skip
lexer_next-line_end line c cs rest here no_comment all short =
    let at_word : skip false line (c ∷ (cs ++ newline ∷ rest))
        ≡ (some c, record { input = cs ++ newline ∷ rest; line = line }) =
      rw (here, no_comment, line_after-same c line here) refl in
    rw (ap (λ x. x.0) at_word, ap (λ x. x.1) at_word, lexer_next)
      (collect-word 0 line c cs rest here all (omega (arith, short)))
