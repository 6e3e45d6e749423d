-- ===== src/Build/Shell/Values.antt =====
-- ENV values of pkg/e2bbuild as the shell reads them between double quotes.
use sandbox_operator.Prelude.{
  ℕ, ◌≡◌, refl, Bool, true, false, ◌&&◌, ◌||◌, Option, none, some, [], ◌∷◌, ◌++◌, arith, nat_beq,
  if◌then◌else◌, Text,
}
use sandbox_operator.Build.Shell.{opens, env_escape}

-- How POSIX sh reads the text after an opening double quote: `none` when a command substitution
-- starts before the closing quote or there is no closing quote; otherwise the characters, with
-- those that a backslash made literal marked, and what follows the closing quote.
abbrev escapable : ℕ → Bool
escapable c =
    nat_beq c b'\\' || (nat_beq c b'"' || (nat_beq c b'`' || (nat_beq c b'$' || nat_beq c b'\n')))

abbrev push : ℕ → Option (Text × Text) → Option (Text × Text)
push c none = none
push c (some (v, rest)) = some (c ∷ v, rest)

-- `after_slash` says that a backslash was read just before.
unfoldable pub in_double_quotes : Bool → Text → Option (Text × Text)
in_double_quotes after_slash [] = none
in_double_quotes true (c ∷ s) =
    let rest = in_double_quotes false s in
    if nat_beq c b'\n' then rest else if escapable c then push c rest else push b'\\' (push c rest)
in_double_quotes false (c ∷ s) =
    let literal = in_double_quotes true s in
    let rest = in_double_quotes false s in
    if nat_beq c b'\\'
    then literal
    else if nat_beq c b'"'
    then some ([], s)
    else if nat_beq c b'`' || (nat_beq c b'$' && opens s)
    then none
    else push c rest

opens-env_escape : (s rest : Text) → opens (env_escape s ++ (b'"' ∷ rest)) ≡ opens s
unfolding env_escape
opens-env_escape [] rest = refl
opens-env_escape (c ∷ s) rest = ground arith

-- An escaped value runs to the closing quote, starts no command substitution, and its characters
-- are those of the value.
pub in_double_quotes-env_escape :
    (s rest : Text) → in_double_quotes false (env_escape s ++ (b'"' ∷ rest)) ≡ some (s, rest)
unfolding in_double_quotes env_escape
in_double_quotes-env_escape [] rest = refl
in_double_quotes-env_escape (c ∷ s) rest =
    ground (arith, in_double_quotes-env_escape s rest, opens-env_escape s rest)
