-- ===== src/Reader.antt =====
-- src/core/parser.c: the tokens of a problem file.
pub mod Number
pub mod Lines
pub mod Matrix
pub mod Stream
use mpi_local_lab.Base.{
  ℕ, suc, ◌+◌, ◌<◌, ◌==◌, Bool, true, false, not, ◌&&◌, ◌||◌, List, [], ◌∷◌, Option, none, some,
  ltb, leb, if◌then◌else◌,
}
use mpi_local_lab.Base.Int.{ℤ, pos, ◌+ℤ◌, ◌-ℤ◌}

-- The bytes of the file that are not read yet, and the number of the line.
pub record Lexer : Type 0 where
  pub input : List ℕ
  pub line : ℤ

-- `lexer_init`
abbrev pub lexer_init : List ℕ → Lexer
lexer_init input = record { input = input; line = pos 1 }

-- `TOKEN_MAX`
abbrev pub token_max : ℕ
token_max = 64

abbrev pub newline : ℕ
newline = 10

abbrev pub hash : ℕ
hash = 35

-- `isspace` in the C locale.
unfoldable pub is_space : ℕ → Bool
is_space c = c == 32 || (leb 9 c && leb c 13)

-- The line behind a byte that `lexer_getc` returns.
unfoldable pub line_after : ℕ → ℤ → ℤ
line_after c line = if c == newline then line +ℤ pos 1 else line

-- What `lexer_next` returns: a token, or false at the end of the input, or false with a message.
pub data Next : Type 0 where
  word : (token : List ℕ) → Lexer → Next
  ended : Lexer → Next
  too_long : (line : ℤ) → Next

-- The first loop: the first byte of a token, behind blanks and comments. The flag says whether a
-- comment has been entered.
unfoldable pub skip : (comment : Bool) → (line : ℤ) → List ℕ → Option ℕ × Lexer
unfolding is_space line_after
skip comment line [] = (none, record { input = []; line = line })
skip comment line (c ∷ cs) =
    let rest = skip (if comment then not (c == newline) else c == hash) (line_after c line) cs in
    if not comment && not (is_space c) && not (c == hash)
    then (some c, record { input = cs; line = line_after c line })
    else rest

abbrev prepend : ℕ → Next → Next
prepend c (word token lexer) = word (c ∷ token) lexer
prepend c (ended lexer) = ended lexer
prepend c (too_long line) = too_long line

-- The second loop, at the byte `c`, with the length of the token before it.
unfoldable pub collect : (len : ℕ) (line : ℤ) (c : ℕ) → List ℕ → Next
unfolding is_space line_after
collect len line c [] =
    if is_space c
    then word [] (record { input = []; line = if c == newline then line -ℤ pos 1 else line })
    else if leb token_max (len + 1)
    then too_long line
    else word (c ∷ []) (record { input = []; line = line })
collect len line c (d ∷ ds) =
    let rest = collect (len + 1) (line_after d line) d ds in
    if is_space c
    then word [] (record { input = d ∷ ds; line = if c == newline then line -ℤ pos 1 else line })
    else if leb token_max (len + 1)
    then too_long line
    else prepend c rest

unfoldable pub lexer_next : Lexer → Next
unfolding skip collect
lexer_next lexer =
    let (first, at) = skip false lexer.line lexer.input in
    elim first [ none ↦ ended at | some c ↦ collect 0 at.line c at.input ]
