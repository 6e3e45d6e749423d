-- ===== src/E2b.antt =====
-- pkg/e2bcompat/server.go and lifecycle.go: the verbs of the e2b surface on one sandbox, over the
-- store. A verb is a sequence of calls of the store; each answer is any function of the calls made
-- before, newest first.
pub mod Sandboxes
pub mod Snapshots
pub mod Leases
pub mod Forks
pub mod Owned
pub mod Ordered
pub mod PageKey
pub mod Page
pub mod Walk
pub mod Keys
pub mod Auth
mod Tests
use sandbox_operator.Prelude.{
  ℕ, Bool, true, false, not, ◌&&◌, ◌||◌, Option, none, some, List, [], ◌∷◌, ◌++◌, ltb, leb,
  if◌then◌else◌, Text, codes, is_empty, cut_prefix, text_eq,
}
use sandbox_operator.Prelude.Dict
use sandbox_operator.Prelude.Dict.{Dict}
use sandbox_operator.Prelude.Int.{ℤ, pos, negsuc}
use sandbox_operator.Errors.{
  Error, sentinel, err_no_such_sandbox, Result, ok, err, is, as_status_error, is_not_found,
}
use sandbox_operator.SandboxId.{claim_id, matches_id, public_id}
use sandbox_operator.Scale.Claim.{Assignment}
use sandbox_operator.Scale.Entry.{Sandbox}
use sandbox_operator.Scale.Lifecycle.{Snapshot, SandboxRecord}
use sandbox_operator.Storage.{claim_id_of}

-- A call of the store that changes a sandbox or reads the node that owns it.
pub data Call : Type 0 where
  reads : Text → Text → Call
  pauses : Text → Text → Call
  resumes : Text → Text → Call
  renews : Text → Text → ℤ → Text → Call
  releases : Text → Text → Call
  forks : Text → Text → Text → ℤ → ℤ → Call
  marks : Text → Text → Text → Call
  inits : Text → Text → Text → Call
  snaps : Text → Text → Text → Call
  unsnaps : Text → Text → Call

-- What the server stands on: the store, the inventory's nodes, `AccessToken` with the secret, the
-- seconds up to a deadline, the hash document of a token, and the texts of packages fmt and strings.
pub record Backend : Type 0 where
  pub find : List Call → Text → Text → (Text → Bool) → Result Sandbox
  pub read : List Call → Text → Text → Result SandboxRecord
  pub perform : List Call → Call → Result (Unit {0})
  pub fork : List Call → Text → Text → Text → ℤ → ℤ → Result (List Assignment)
  pub snapshot : List Call → Text → Text → Text → Result Snapshot
  pub snapshots : Text → Result (List Snapshot)
  pub nodes : Result (List Text)
  pub derive : Text → Text
  pub left : List Call → ℕ → ℤ
  pub hash_document : Text → Text
  pub quoted : Text → Text
  pub rewrite : Text → Text
  pub trim_space : Text → Text

-- The server's options that the verbs read, and the aliases of each image in order.
pub record Server : Type 0 where
  pub namespace : Text
  pub domain : Text
  pub envd_version : Text
  pub default_timeout : ℤ
  pub image_aliases : Dict Text (List Text)

-- `Sandbox` of pkg/e2bcompat/types.go
pub record View : Type 0 where
  pub template_id : Text
  pub alias : Text
  pub sandbox_id : Text
  pub client_id : Text
  pub envd_version : Text
  pub access_token : Text
  pub domain : Text

pub data Body : Type 0 where
  nothing : Body
  view : View → Body
  views : List View → Body
  snapshot_ids : List (Text × List Text) → Body

-- A reply with a status: an error's message, or a body.
pub data Reply : Type 0 where
  refuses : ℕ → Text → Reply
  answers : ℕ → Body → Reply

-- A verb that goes on, or has replied.
pub data Step (A : Type 0) : Type 0 where
  goes : A → Step A
  replies : Reply → Step A

abbrev pub Verb : Type 0 → Type 0
Verb A = List Call → Step A × List Call

module _ {A B : Type 0} where
  abbrev pub follow : (A → Verb B) → Step A × List Call → Step B × List Call
  follow next (goes a, calls) = next a calls
  follow next (replies r, calls) = (replies r, calls)

  infixl 5 ◌>>=◌
  abbrev pub ◌>>=◌ : Verb A → (A → Verb B) → Verb B
  (verb >>= next) calls = follow next (verb calls)

abbrev pub go_on : {A : Type 0} → A → Verb A
go_on a calls = (goes a, calls)

abbrev pub reply : {A : Type 0} → Reply → Verb A
reply r calls = (replies r, calls)

-- The result of a call, an error being answered by `f`.
abbrev pub or_reply : {A : Type 0} → (Error → Reply) → Result A → Step A
or_reply f (ok a) = goes a
or_reply f (err e) = replies (f e)

abbrev pub client_error : ℕ → Bool
client_error code = leb 400 code && ltb code 500

abbrev pub by_status : Text → Option (ℕ × Text) → Reply
by_status msg none = refuses 500 msg
by_status msg (some (code, m)) = if client_error code then refuses code m else refuses 500 msg

module _ (b : Backend) where
  -- `writeVerbError`
  unfoldable pub verb_error : Text → Text → Error → Reply
  unfolding is_not_found is as_status_error
  verb_error id msg e =
      if is_not_found e || is e err_no_such_sandbox
      then refuses 404 (codes "sandbox " ++ (b.quoted id ++ codes " not found"))
      else by_status msg (as_status_error e)

  -- `writeLookupError`
  unfoldable pub lookup_error : Text → Error → Reply
  unfolding verb_error
  lookup_error id e = verb_error id (codes "failed to resolve the sandbox") e

  abbrev pub missing : Result Sandbox → Result Sandbox
  missing (ok sb) = ok sb
  missing (err e) = if is_not_found e then err (sentinel err_no_such_sandbox) else err e

  -- `lookup`, in the caller's namespace
  unfoldable pub lookup : Text → Text → List Call → Result Sandbox
  unfolding claim_id matches_id is_not_found
  lookup ns id calls =
      if is_empty (b.trim_space id)
      then err (sentinel err_no_such_sandbox)
      else missing (b.find calls ns (claim_id id) (λ c. matches_id b.rewrite c id))

  unfoldable pub looked_up : Text → Text → Verb Sandbox
  unfolding lookup lookup_error
  looked_up ns id calls = (or_reply (lookup_error id) (lookup ns id calls), calls)

  -- A call that answers only with an error or none.
  abbrev pub performed : (Error → Reply) → Call → Verb (Unit {0})
  performed f c calls = (or_reply f (b.perform calls c), c ∷ calls)

  -- `store.Read`
  abbrev pub read_back : (Error → Reply) → Text → Text → Verb SandboxRecord
  read_back f node id calls = (or_reply f (b.read calls node id), reads node id ∷ calls)

-- `aliasOf`
abbrev first_of : Option (List Text) → Text
first_of (some (a ∷ rest)) = a
first_of _ = []

unfoldable pub alias_of : Server → Text → Text
alias_of s image = first_of (Dict.get image s.image_aliases)

-- `timeoutSeconds`
unfoldable pub timeout_seconds : Server → Option ℤ → ℤ
timeout_seconds s none = s.default_timeout
timeout_seconds s (some t) = t

abbrev text_or : Option Text → Text
text_or none = []
text_or (some t) = t

abbrev bare : Text → Option Text → Text
bare t none = t
bare t (some name) = name

-- `templateOf`
unfoldable pub template_of : Sandbox → Text
unfolding cut_prefix
template_of sb =
    let t = text_or (Dict.get (codes "sandbox.cocoonstack.io/template") sb.labels) in
    bare t (cut_prefix t (codes "e2b/" ++ (sb.namespace ++ (b'/' ∷ []))))

-- `sandboxOf`
unfoldable pub sandbox_of : Backend → Server → Text → Text → Text → Text → View
unfolding alias_of public_id
sandbox_of b s template name node token = record {
  template_id = template;
  alias = alias_of s template;
  sandbox_id = public_id b.rewrite name;
  client_id = node;
  envd_version = s.envd_version;
  access_token = token;
  domain = s.domain;
}

-- Comparison of Go's `int`
abbrev pub int_leb : ℤ → ℤ → Bool
int_leb (pos m) (pos n) = leb m n
int_leb (pos m) (negsuc n) = false
int_leb (negsuc m) (pos n) = true
int_leb (negsuc m) (negsuc n) = leb n m

abbrev pub int_max : ℤ → ℤ → ℤ
int_max a b = if int_leb a b then b else a
