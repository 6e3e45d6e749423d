-- ===== src/E2b/Keys.antt =====
-- pkg/e2bcompat/server.go: the configuration of the server, and whom it lets in. What package
-- strings makes of a text that is not ASCII is a parameter, as in EnvdProxy.
use sandbox_operator.Prelude.{
  ℕ, Bool, true, false, not, ◌&&◌, ◌||◌, Option, none, some, List, [], ◌∷◌, ◌++◌, map, nat_beq,
  if◌then◌else◌, ◌==◌, Text, codes, is_empty, or_else, sorted, is_some, text_eq, nat_eq,
}
use sandbox_operator.Prelude.Dict
use sandbox_operator.Prelude.Dict.{Dict}
use sandbox_operator.Errors.{plain, Result, ok, err, ◌>>=◌, ◌>>◌, require}
use sandbox_operator.SandboxId.{is_ascii}
use sandbox_operator.Scale.Model.{PoolKey}
use sandbox_operator.EnvdProxy.{Unicode, is_space, trim_space}

-- `Options`, without what other modules read
pub record Options : Type 0 where
  pub namespace : Text
  pub domain : Text
  pub envd_version : Text
  pub default_timeout_seconds : ℕ
  pub api_keys : List Text
  pub allow_anonymous : Bool
  pub template_aliases : List Text
  pub envd_secret : Text

-- `Server`, of which the store is a parameter elsewhere
pub record Config : Type 0 where
  pub opts : Options
  pub keys : Dict Text Text
  pub aliases : Dict Text PoolKey
  pub image_aliases : Dict Text (List Text)

abbrev add_char : ℕ → List Text → Bool → List Text
add_char c words true = (c ∷ []) ∷ words
add_char c [] false = (c ∷ []) ∷ []
add_char c (w ∷ words) false = (c ∷ w) ∷ words

abbrev starts_space : Text → Bool
starts_space [] = true
starts_space (c ∷ s) = is_space c

abbrev ascii_fields : Text → List Text
ascii_fields [] = []
ascii_fields (c ∷ s) =
    let rest = ascii_fields s in if is_space c then rest else add_char c rest (starts_space s)

-- `strings.Fields`; `other` is for a text that is not ASCII.
unfoldable pub fields : (Text → List Text) → Text → List Text
unfolding is_ascii
fields other s = if is_ascii s then ascii_fields s else other s

-- One entry of `APIKeys`.
abbrev pub add_key : Text → Dict Text Text → List Text → Result (Dict Text Text)
add_key ns keys [] = ok keys
add_key ns keys (k ∷ []) = ok (Dict.put k ns keys)
add_key ns keys (k ∷ key_ns ∷ []) = ok (Dict.put k key_ns keys)
add_key ns keys _ =
    err (plain (codes "e2bcompat: api key entry: want \"key\" or \"key namespace\""))

unfoldable pub parse_keys :
    (Text → List Text) → Text → Dict Text Text → List Text → Result (Dict Text Text)
unfolding fields Dict.put
parse_keys other ns keys [] = ok keys
parse_keys other ns keys (entry ∷ entries) =
    add_key ns keys (fields other entry) >>= λ more. parse_keys other ns more entries

abbrev pub small : Text
small = codes "small"

abbrev is_size_class : Text → Bool
is_size_class s = s == small || (s == codes "medium" || s == codes "large")

abbrev Aliases : Type 0
Aliases = Dict Text PoolKey × Dict Text (List Text)

abbrev names_of : Option (List Text) → List Text
names_of none = []
names_of (some names) = names

abbrev add_alias : Aliases → Text → Text → Text → Result Aliases
add_alias (aliases, images) alias image size =
    if is_some (Dict.get alias aliases)
    then err (plain (codes "e2bcompat: template alias is named twice"))
    else if not (is_size_class size)
    then err (plain (codes "e2bcompat: template alias: unknown size"))
    else ok (
      Dict.put alias (record { template = image; net = []; size = size }) aliases,
      Dict.put image (names_of (Dict.get image images) ++ (alias ∷ [])) images,
    )

-- One entry of `TemplateAliases`.
abbrev alias_entry : Aliases → List Text → Result Aliases
alias_entry a (alias ∷ image ∷ []) = add_alias a alias image small
alias_entry a (alias ∷ image ∷ size ∷ []) = add_alias a alias image size
alias_entry a _ = err (plain (codes "e2bcompat: template alias entry: want \"alias image [size]\""))

unfoldable pub parse_aliases : (Text → List Text) → Aliases → List Text → Result Aliases
unfolding fields Dict.get Dict.put
parse_aliases other a [] = ok a
parse_aliases other a (entry ∷ entries) =
    alias_entry a (fields other entry) >>= λ more. parse_aliases other more entries

abbrev sort_names : Dict Text (List Text) → Dict Text (List Text)
sort_names images = map (λ i. (i.0, sorted i.1)) images

abbrev pub is_nil {ℓ} : {A : Type ℓ} → List A → Bool
is_nil [] = true
is_nil (x ∷ xs) = false

abbrev or_number : ℕ → ℕ → ℕ
or_number n default = if nat_beq n 0 then default else n

-- `NewServer`, for a store that resolves claim ids
unfoldable pub new_server : Unicode → (Text → List Text) → Text → ℕ → Options → Result Config
unfolding parse_keys parse_aliases trim_space
new_server u other envd_version timeout given =
    let opts : Options = record given {
      namespace = or_else given.namespace (codes "default");
      envd_version = or_else given.envd_version envd_version;
      default_timeout_seconds = or_number given.default_timeout_seconds timeout;
    } in
    parse_keys other opts.namespace [] given.api_keys >>= λ keys.
    require (not (is_nil keys && not given.allow_anonymous))
      (plain (codes "e2bcompat: no API key configured"))
    >> (require (not (is_empty (trim_space u given.domain)))
          (plain (codes "e2bcompat: no domain configured"))
        >> (require (not (is_empty given.envd_secret))
              (plain (codes "e2bcompat: an envd secret is required"))
            >> (parse_aliases other ([], []) given.template_aliases >>= λ a. ok (record {
              opts = opts;
              keys = keys;
              aliases = a.0;
              image_aliases = sort_names a.1;
            }))))

-- `namespaceForKey`; the keys of a map are different, so at most one is the presented one.
unfoldable pub namespace_for_key : Config → Text → Option Text
unfolding Dict.get
namespace_for_key s presented = if is_empty presented then none else Dict.get presented s.keys

-- The namespace that `auth` lets a request into, by the value of its X-API-KEY, with `namespace`.
unfoldable pub auth : Config → Text → Option Text
unfolding namespace_for_key
auth s presented = if is_nil s.keys then some s.opts.namespace else namespace_for_key s presented

-- `poolKey`
abbrev key_or : Text → Option PoolKey → PoolKey
key_or id none = record { template = id; net = []; size = small }
key_or id (some key) = key

unfoldable pub pool_key : Config → Text → PoolKey
unfolding Dict.get
pool_key s id = key_or id (Dict.get id s.aliases)
