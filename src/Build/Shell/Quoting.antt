-- ===== src/Build/Shell/Quoting.antt =====
-- What a shell reads from the quoted texts of pkg/e2bbuild: `word` is how POSIX sh reads one word
-- made of plain characters, backslashes and single quotes.
use sandbox_operator.Prelude.{
  ℕ, zero, suc, ◌≡◌, refl, Option, none, some, List, [], ◌∷◌, ◌++◌, map, append_assoc, arith,
  nat_beq, if◌then◌else◌, length, All, Text, codes, cut, Lacks, cut-append,
}
use sandbox_operator.Build.Shell.{
  quote_char, quote_chars, shell_quote, assignments, copy_vars, copy_script, copy_move,
}
use sandbox_operator.Prelude.Paths.{join}

-- Where the reader stands.
pub data Mode : Type 0 where
  plain : Mode
  quoted : Mode
  escaped : Mode

abbrev push : ℕ → Option (Text × Text) → Option (Text × Text)
push c none = none
push c (some (w, rest)) = some (c ∷ w, rest)

-- The word that a text starts with, up to the end of the line, and what follows it.
unfoldable pub word : Mode → Text → Option (Text × Text)
word plain [] = some ([], [])
word quoted [] = none
word escaped [] = none
word plain (c ∷ s) =
    let in_quotes = word quoted s in
    let after_slash = word escaped s in
    let next = word plain s in
    if nat_beq c b'\''
    then in_quotes
    else if nat_beq c b'\\'
    then after_slash
    else if nat_beq c b'\n'
    then some ([], c ∷ s)
    else push c next
word quoted (c ∷ s) =
    let closed = word plain s in
    let next = word quoted s in if nat_beq c b'\'' then closed else push c next
word escaped (c ∷ s) = push c (word plain s)

abbrev pub name_value : Text → Option (Text × Text) → Option ((Text × Text) × Text)
name_value name (some (value, c ∷ rest)) =
    if nat_beq c b'\n' then some ((name, value), rest) else none
name_value name _ = none

abbrev pub assigned : Option (Text × Text) → Option ((Text × Text) × Text)
assigned none = none
assigned (some (name, after)) = name_value name (word plain after)

abbrev pub listed :
    Option ((Text × Text) × Text)
    → (Text → Option (List (Text × Text) × Text))
    → Option (List (Text × Text) × Text)
listed none next = none
listed (some (var, rest)) next = elim (next rest) [
  | none ↦ none
  | some (vars, after) ↦ some (var ∷ vars, after)
]

-- The first `n` lines of a script, each an assignment, and the script after them.
unfoldable pub assigned_lines : ℕ → Text → Option (List (Text × Text) × Text)
unfolding cut word
assigned_lines zero s = some ([], s)
assigned_lines (suc n) s = listed (assigned (cut b'=' s)) (assigned_lines n)

word-quote_char : (c : ℕ) (s : Text) → word quoted (quote_char c ++ s) ≡ push c (word quoted s)
unfolding word
word-quote_char c s = ground arith

word-quote_chars :
    (s rest : Text)
    → word quoted (quote_chars s ++ (b'\'' ∷ (b'\n' ∷ rest))) ≡ some (s, b'\n' ∷ rest)
unfolding word
word-quote_chars [] rest = refl
word-quote_chars (c ∷ s) rest = rw (append_assoc, word-quote_char, word-quote_chars s rest) refl

-- A quoted text is one word, whatever its characters.
pub word-shell_quote :
    (s rest : Text) → word plain (shell_quote s ++ (b'\n' ∷ rest)) ≡ some (s, b'\n' ∷ rest)
unfolding word shell_quote
word-shell_quote s rest = rw append_assoc (word-quote_chars s rest)

abbrev pub PlainNames : List (Text × Text) → Type 0
PlainNames = All λ v. Lacks b'=' v.0

-- Lines of assignments are read back, whatever the values.
pub assigned_lines-assignments :
    (vars : List (Text × Text)) (rest : Text)
    → PlainNames vars
    → assigned_lines (length vars) (assignments vars rest) ≡ some (vars, rest)
unfolding assigned_lines assignments
assigned_lines-assignments [] rest h = refl
assigned_lines-assignments ((name, value) ∷ vars) rest (h, hs) =
    rw
      (
        cut-append b'=' name (shell_quote value ++ (b'\n' ∷ assignments vars rest)) h,
        word-shell_quote value (assignments vars rest),
        assigned_lines-assignments vars rest hs,
      )
      refl

-- The shell that runs a copy script reads exactly the values that the step and the build gave,
-- each in its own variable, and then the fixed script.
pub assigned_lines-copy_script :
    (user workdir hash src dest : Text) (more : List Text)
    → assigned_lines 10 (copy_script user workdir hash src dest more)
      ≡ some (copy_vars user workdir hash src dest more, join (codes "\n") (map codes copy_move))
unfolding copy_script copy_vars
assigned_lines-copy_script user workdir hash src dest more =
    assigned_lines-assignments (copy_vars user workdir hash src dest more) _ (ground arith)
