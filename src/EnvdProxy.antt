-- ===== src/EnvdProxy.antt =====
-- pkg/envdproxy/route.go: which sandbox and port a request names. Texts are bytes; what package
-- strings makes of a text with a byte of 0x80 or more is a parameter.
pub mod Hosts
pub mod Recent
pub mod Resolver
pub mod Admission
pub mod Serve
mod Tests
use sandbox_operator.Prelude.{
  ℕ, Bool, not, ◌&&◌, ◌||◌, Option, none, some, List, [], ◌∷◌, map, leb, nat_beq, if◌then◌else◌,
  ◌==◌, any, Text, codes, is_empty, cut, text_eq, nat_eq,
}
use sandbox_operator.Prelude.Decimal.{parse_uint}
use sandbox_operator.SandboxId.{is_ascii, lower}

-- `strings.ToLower`, `strings.TrimSpace` and `strings.EqualFold` on a text that is not ASCII.
pub record Unicode : Type 0 where
  pub to_lower : Text → Text
  pub trim_space : Text → Text
  pub equal_fold : Text → Text → Bool

-- `route`
pub record Route : Type 0 where
  pub sandbox_id : Text
  pub port : ℕ

-- What a request is routed and admitted by: two headers that name a sandbox, its host, its path,
-- its access token, and the query's `signature`.
pub record Request : Type 0 where
  pub id_header : Text
  pub port_header : Text
  pub host : Text
  pub path : Text
  pub access_token : Text
  pub signature : Text

abbrev pub is_space : ℕ → Bool
is_space c = nat_beq c b' ' || (leb 9 c && leb c 13)

abbrev pub trim_left : (ℕ → Bool) → Text → Text
trim_left p [] = []
trim_left p (c ∷ s) = let rest = trim_left p s in if p c then rest else c ∷ s

abbrev pub cons_unless : (ℕ → Bool) → ℕ → Text → Text
cons_unless p c [] = if p c then [] else c ∷ []
cons_unless p c (d ∷ s) = c ∷ d ∷ s

abbrev pub trim_right : (ℕ → Bool) → Text → Text
trim_right p [] = []
trim_right p (c ∷ s) = cons_unless p c (trim_right p s)

-- `strings.Trim`, for the characters that `p` has
abbrev pub trim : (ℕ → Bool) → Text → Text
trim p s = trim_right p (trim_left p s)

module _ (u : Unicode) where
  unfoldable pub trim_space : Text → Text
  unfolding is_ascii
  trim_space s = if is_ascii s then trim is_space s else u.trim_space s

  unfoldable pub to_lower : Text → Text
  unfolding is_ascii
  to_lower s = if is_ascii s then map lower s else u.to_lower s

  unfoldable pub equal_fold : Text → Text → Bool
  unfolding is_ascii
  equal_fold s t = if is_ascii s && is_ascii t then map lower s == map lower t else u.equal_fold s t

abbrev nonzero : Option ℕ → Option ℕ
nonzero none = none
nonzero (some port) = if nat_beq port 0 then none else some port

-- `parsePort`
unfoldable pub parse_port : Unicode → Text → Option ℕ
unfolding trim_space parse_uint
parse_port u s = nonzero (parse_uint 65535 (trim_space u s))

-- `strings.CutSuffix(s, p)`
abbrev pub push : ℕ → Option Text → Option Text
push c none = none
push c (some s) = some (c ∷ s)

unfoldable pub cut_suffix : Text → Text → Option Text
cut_suffix [] p = if is_empty p then some [] else none
cut_suffix (c ∷ s) p = let rest = push c (cut_suffix s p) in if (c ∷ s) == p then some [] else rest

abbrev pub has : ℕ → Text → Bool
has b = any λ c. nat_beq c b

-- The host of a bracketed address: what follows its closing bracket is a colon and a port.
abbrev after_bracket : Text → Text → Option Text
after_bracket host [] = none
after_bracket host (c ∷ port) =
    if nat_beq c b':' && not (has b':' port || (has b'[' host || (has b'[' port || has b']' port)))
    then some host
    else none

abbrev bracketed : Option (Text × Text) → Option Text
bracketed none = none
bracketed (some (host, after)) = after_bracket host after

abbrev plain_host : Text → Option (Text × Text) → Option Text
plain_host s none = none
plain_host s (some (host, port)) =
    if has b':' port || (has b'[' s || has b']' s) then none else some host

-- The host that `net.SplitHostPort` gives, when it gives no error.
unfoldable pub split_host_port : Text → Option Text
unfolding cut
split_host_port [] = none
split_host_port (c ∷ s) =
    if nat_beq c b'[' then bracketed (cut b']' s) else plain_host (c ∷ s) (cut b':' (c ∷ s))

abbrev pub host_of : Text → Option Text → Text
host_of s none = s
host_of s (some host) = host

abbrev pub with_port : Text → Option ℕ → Option Route
with_port id none = none
with_port id (some port) = some (record { sandbox_id = id; port = port })

abbrev named : Unicode → Option (Text × Text) → Option Route
named u none = none
named u (some (port, id)) = if is_empty id then none else with_port id (parse_port u port)

abbrev labelled : Unicode → Option Text → Option Route
labelled u none = none
labelled u (some label) =
    if is_empty label || has b'.' label then none else named u (cut b'-' label)

-- `routeOfHost`
unfoldable pub route_of_host : Unicode → Text → Text → Option Route
unfolding parse_port cut cut_suffix to_lower split_host_port
route_of_host u host domain =
    labelled u
      (cut_suffix (to_lower u (host_of host (split_host_port host))) (b'.' ∷ to_lower u domain))

-- `routeOf`
unfoldable pub route_of : Unicode → Request → Text → Option Route
unfolding route_of_host trim_space parse_port
route_of u r domain =
    let id = trim_space u r.id_header in
    if not (is_empty id)
    then with_port id (parse_port u r.port_header)
    else route_of_host u r.host domain

abbrev pub internal_paths : List Text
internal_paths =
    codes "/init"
    ∷ codes "/freeze"
    ∷ codes "/unfreeze"
    ∷ codes "/fsfreeze"
    ∷ codes "/fsthaw"
    ∷ codes "/collapse"
    ∷ []

-- `internalPath`
unfoldable pub internal_path : Unicode → Text → Bool
unfolding equal_fold
internal_path u path =
    let clean = b'/' ∷ trim (λ c. nat_beq c b'/') path in
    any (λ p. equal_fold u clean p) internal_paths

-- `signedFileURL`
unfoldable pub signed_file_url : Request → Bool
signed_file_url r = r.path == codes "/files" && not (is_empty r.signature)
