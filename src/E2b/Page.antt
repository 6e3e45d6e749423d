-- ===== src/E2b/Page.antt =====
-- pkg/e2bcompat/server.go: the pages of GET /v2/sandboxes. The RawURLEncoding of package base64 is
-- an interface, with what the code relies on.
use sandbox_operator.Prelude.{
  ℕ, zero, suc, ◌-◌, ◌^◌, ◌≡◌, Bool, true, false, ◌&&◌, ◌||◌, Option, none, some, List, [], ◌∷◌,
  ◌++◌, ltb, leb, nat_beq, if◌then◌else◌, ◌==◌, length, get_elem?, take, keep, Text, codes,
  is_empty, cut, text_eq, nat_eq,
}
use sandbox_operator.Prelude.Decimal.{parse_uint}
use sandbox_operator.Prelude.Int.{ℤ, pos, negsuc}
use sandbox_operator.Errors.{plain, Result, ok, err, ◌>>=◌}
use sandbox_operator.E2b.PageKey.{PageKey, key_order}
use sandbox_operator.E2b.Ordered.{sort_by, after_key}

pub record Base64 : Type 0 where
  pub encode : Text → Text
  pub decode : Text → Option Text
  pub decode_encode : (s : Text) → decode (encode s) ≡ some s
  pub encode_nil : encode [] ≡ []

-- `SandboxDetail`
pub record SandboxDetail : Type 0 where
  pub template_id : Text
  pub alias : Text
  pub sandbox_id : Text
  pub client_id : Text
  pub started_at : Text
  pub end_at : Text
  pub state : Text
  pub envd_version : Text
  pub cpu_count : ℕ
  pub memory_mb : ℕ
  pub disk_size_mb : ℕ
  pub metadata : Text
  pub envd_access_token : Text
  pub domain : Text
  pub started_at_key : Text

-- `keyOf`
abbrev pub key_of : SandboxDetail → PageKey
key_of d = (d.started_at_key, d.sandbox_id)

-- `listPage`
pub record ListPage : Type 0 where
  pub limit : ℕ
  pub desc : Bool
  pub after : PageKey

abbrev pub max_list_limit : ℕ
max_list_limit = 100

-- `strconv.Atoi(v)`
abbrev negated : Option ℕ → Option ℤ
negated none = none
negated (some zero) = some (pos 0)
negated (some (suc n)) = some (negsuc n)

abbrev unsigned : Option ℕ → Option ℤ
unsigned none = none
unsigned (some n) = some (pos n)

unfoldable pub atoi : Text → Option ℤ
unfolding parse_uint
atoi [] = none
atoi (c ∷ s) =
    if nat_beq c b'-'
    then negated (parse_uint (2 ^ 63) s)
    else if nat_beq c b'+'
    then unsigned (parse_uint (2 ^ 63 - 1) s)
    else unsigned (parse_uint (2 ^ 63 - 1) (c ∷ s))

abbrev in_range : Option ℤ → Result ℕ
in_range (some (pos n)) =
    if ltb n 1 || ltb max_list_limit n then err (plain (codes "limit")) else ok n
in_range _ = err (plain (codes "limit"))

-- The limit that a query asks for.
unfoldable pub limit_of : Text → Result ℕ
unfolding atoi
limit_of v = if is_empty v then ok max_list_limit else in_range (atoi v)

-- Whether a query's order is descending.
unfoldable pub desc_of : Text → Result Bool
desc_of order =
    if is_empty order || order == codes "desc"
    then ok true
    else if order == codes "asc"
    then ok false
    else err (plain (codes "order must be asc or desc"))

abbrev cut_key : Option (Text × Text) → Result PageKey
cut_key none = err (plain (codes "nextToken was not issued by this server"))
cut_key (some key) = ok key

abbrev key_in : Option Text → Result PageKey
key_in none = cut_key none
key_in (some raw) = cut_key (cut b' ' raw)

-- The key that a query's token names, which is empty without a token.
unfoldable pub after_of : Base64 → Text → Result PageKey
unfolding cut
after_of c token = if is_empty token then ok ([], []) else key_in (c.decode token)

-- `listPageOf`, with the query's `limit`, `order` and `nextToken`
unfoldable pub list_page_of : Base64 → Text → Text → Text → Result ListPage
unfolding limit_of desc_of after_of
list_page_of c limit order token = limit_of limit >>= λ n. desc_of order >>= λ desc.
    after_of c token >>= λ after. ok (record { limit = n; desc = desc; after = after })

abbrev pub is_no_key : PageKey → Bool
is_no_key (s, i) = is_empty s && is_empty i

abbrev pub filtered : ListPage → List SandboxDetail → List SandboxDetail
filtered p items =
    if is_no_key p.after then items else keep (after_key (key_order p.desc) key_of p.after) items

abbrev pub token_of : Base64 → Option SandboxDetail → Text
token_of c none = []
token_of c (some last) = c.encode (last.started_at_key ++ (b' ' ∷ last.sandbox_id))

-- `listPage.cut`: the page, and the token of the next one
unfoldable pub cut_page : Base64 → ListPage → List SandboxDetail → List SandboxDetail × Text
unfolding sort_by
cut_page c p items =
    let found = sort_by (key_order p.desc) key_of (filtered p items) in
    if leb (length found) p.limit
    then (found, [])
    else (take p.limit found, token_of c (get_elem? found (p.limit - 1)))
