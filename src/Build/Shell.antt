-- ===== src/Build/Shell.antt =====
-- pkg/e2bbuild/executor.go and copy.go: the texts that a build hands to the guest's shell.
pub mod Quoting
pub mod Values
use sandbox_operator.Prelude.{
  ℕ, ◌-◌, ◌*◌, String, Bool, false, not, ◌&&◌, ◌||◌, List, [], ◌∷◌, ◌++◌, map, nat_beq,
  if◌then◌else◌, any, Text, codes, is_empty, cut,
}
use sandbox_operator.Prelude.Paths.{split, join, path_join}

-- `shellQuote`: each quote becomes a closing quote, a quoted quote and an opening one.
abbrev pub quote_char : ℕ → Text
quote_char c = if nat_beq c b'\'' then b'\'' ∷ b'\\' ∷ b'\'' ∷ b'\'' ∷ [] else c ∷ []

abbrev pub quote_chars : Text → Text
quote_chars [] = []
quote_chars (c ∷ s) = quote_char c ++ quote_chars s

unfoldable pub shell_quote : Text → Text
shell_quote s = b'\'' ∷ (quote_chars s ++ b'\'' ∷ [])

-- `envEscaper.Replace`: backslashes, double quotes, backquotes and each `$` before `(`.
abbrev pub opens : Text → Bool
opens [] = false
opens (c ∷ s) = nat_beq c b'('

abbrev pub escapes : ℕ → Text → Bool
escapes c s = nat_beq c b'\\' || (nat_beq c b'"' || (nat_beq c b'`' || (nat_beq c b'$' && opens s)))

unfoldable pub env_escape : Text → Text
env_escape [] = []
env_escape (c ∷ s) = let rest = env_escape s in if escapes c s then b'\\' ∷ c ∷ rest else c ∷ rest

-- `archivePath`
unfoldable pub archive_path : Text → Text
archive_path hash = codes "/tmp/" ++ (hash ++ codes ".tar")

-- `strings.TrimSuffix(src, "/")`
abbrev trim_slash : Text → Text
trim_slash [] = []
trim_slash (c ∷ []) = if nat_beq c b'/' then [] else c ∷ []
trim_slash (c ∷ d ∷ s) = c ∷ trim_slash (d ∷ s)

-- `strings.ContainsAny(seg, "*?[{")`
abbrev pub has_glob : Text → Bool
has_glob = any λ c. nat_beq c b'*' || (nat_beq c b'?' || (nat_beq c b'[' || nat_beq c b'{'))

-- The segments before the first one with a glob.
abbrev pub before_glob : List Text → List Text
before_glob [] = []
before_glob (seg ∷ segs) = let rest = before_glob segs in if has_glob seg then [] else seg ∷ rest

-- `globBase`
unfoldable pub glob_base : Text → Text
unfolding split join
glob_base src = join (codes "/") (before_glob (split b'/' (trim_slash src)))

-- `strings.Contains(s, ":")`
abbrev has_colon : Text → Bool
has_colon = any λ c. nat_beq c b':'

-- The owner that arguments after the source and the target ask for, if any.
abbrev owner_or : Text → List Text → Text
owner_or default [] = default
owner_or default (owner ∷ rest) =
    if is_empty owner then default else if has_colon owner then owner else owner ++ (b':' ∷ owner)

abbrev mode_of : List Text → Text
mode_of (owner ∷ mode ∷ rest) = mode
mode_of _ = []

-- What `copyScript` assigns to the script's variables, in order. `user` and `workdir` are the
-- build's, `src`, `dest` and `more` the step's arguments.
unfoldable pub copy_vars : Text → Text → Text → Text → Text → List Text → List (Text × Text)
unfolding archive_path glob_base
copy_vars user workdir hash src dest more =
    let scratch = codes "/tmp/" ++ hash in
    let unpack = scratch ++ codes "/unpack" in
    (codes "archive", archive_path hash)
    ∷ (codes "scratch", scratch)
    ∷ (codes "unpack", unpack)
    ∷ (codes "src", src)
    ∷ (codes "source", path_join unpack (glob_base src))
    ∷ (codes "target", dest)
    ∷ (codes "owner", owner_or (user ++ (b':' ∷ user)) more)
    ∷ (codes "mode", mode_of more)
    ∷ (codes "workdir", workdir)
    ∷ (codes "user", user)
    ∷ []

-- One line for each variable, before the rest of the script.
unfoldable pub assignments : List (Text × Text) → Text → Text
unfolding shell_quote
assignments [] rest = rest
assignments ((name, value) ∷ vars) rest =
    name ++ (b'=' ∷ (shell_quote value ++ (b'\n' ∷ assignments vars rest)))

-- `copyMove`, line by line
abbrev pub copy_move : List String
copy_move =
    "set -o pipefail" ∷ "mkdir -p \"$unpack\" && tar -xf \"$archive\" -C \"$unpack\" || exit 1"
    ∷ "[ -n \"$workdir\" ] || workdir=$(getent passwd \"$user\" | cut -d: -f6)"
    ∷ "cd \"$workdir\" || exit 1"
    ∷ "case \"$target\" in /*) ;; *) target=\"$(pwd)/$target\" ;; esac"
    ∷ "cd \"$(dirname \"$source\")\" || exit 1" ∷ "entry=$(basename \"$source\")"
    ∷ "if [ ! -e \"$entry\" ] && [ ! -L \"$entry\" ]; then echo \"source path does not exist: $src\"; exit 1; fi"
    ∷ "[ -d \"$entry\" ] || case \"$target\" in */) mkdir -p \"$target\" ;; *) mkdir -p \"$(dirname \"$target\")\" ;; esac"
    ∷ "if [ -L \"$entry\" ]; then"
    ∷ "\tchown -h \"$owner\" \"$entry\" && mv \"$entry\" \"$target\" || exit 1"
    ∷ "elif [ -f \"$entry\" ]; then"
    ∷ "\tchown \"$owner\" \"$entry\" && { [ -z \"$mode\" ] || chmod \"$mode\" \"$entry\"; } && mv \"$entry\" \"$target\" || exit 1"
    ∷ "elif [ -d \"$entry\" ]; then"
    ∷ "\tchown -R \"$owner\" \"$entry\" && { [ -z \"$mode\" ] || chmod -R \"$mode\" \"$entry\"; } || exit 1"
    ∷ "\tif [ ! -e \"$target\" ]; then"
    ∷ "\t\tmkdir -p \"$(dirname \"${target%/}\")\" && mv \"$entry\" \"${target%/}\" || exit 1"
    ∷ "\telse"
    ∷ "\t\t(cd \"$entry\" && tar -cf - .) | tar -xf - -C \"$target\" --keep-directory-symlink --no-overwrite-dir || exit 1"
    ∷ "\tfi" ∷ "else"
    ∷ "\techo \"source is neither a file, a directory nor a symlink: $src\"; exit 1" ∷ "fi"
    ∷ "rm -rf \"$archive\" \"$scratch\"" ∷ []

-- `copyScript`
unfoldable pub copy_script : Text → Text → Text → Text → Text → List Text → Text
unfolding assignments copy_vars join
copy_script user workdir hash src dest more =
    assignments (copy_vars user workdir hash src dest more)
      (join (codes "\n") (map codes copy_move))

-- The script of a WORKDIR step.
unfoldable pub workdir_script : Text → Text → Text
unfolding shell_quote
workdir_script dir user =
    codes "t="
    ++ (shell_quote dir
        ++ (codes "; [ -d \"$t\" ] && exit 0; n=$t; while [ ! -d \"$(dirname \"$n\")\" ]; "
            ++ (codes "do n=$(dirname \"$n\"); done; mkdir -p \"$t\" && chown -R "
                ++ (shell_quote user ++ codes ": \"$n\""))))

-- The script of a USER step.
unfoldable pub user_script : Text → Text
unfolding shell_quote
user_script name =
    let quoted = shell_quote name in
    codes "id -u "
    ++ (quoted ++ (codes " >/dev/null 2>&1 || useradd --create-home --shell /bin/bash " ++ quoted))

-- The line that evaluates the value of an ENV step.
unfoldable pub expand_line : Text → Text
unfolding env_escape
expand_line value = codes "printf \"%s\" \"" ++ (env_escape value ++ codes "\"")
