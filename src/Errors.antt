-- ===== src/Errors.antt =====
-- Go errors as the code builds and inspects them: package errors' chains of wrapped errors, the
-- sandboxd client's errors (pkg/sandboxd/client.go) and those of the Kubernetes API machinery.
use sandbox_operator.Prelude.{
  ℕ, Bool, true, false, Option, none, some, List, nat_beq, if◌then◌else◌, Text,
}

-- The sentinel errors that the code compares by identity.
pub data Sentinel : Type 0 where
  err_node_at_capacity : Sentinel
  err_no_warm_capacity : Sentinel
  err_no_template_ref : Sentinel
  err_no_advertise_addr : Sentinel
  err_build_busy : Sentinel
  err_unknown_build : Sentinel
  err_sandbox_not_found : Sentinel
  err_access_denied : Sentinel
  err_no_such_sandbox : Sentinel

pub Sentinel-discrete : Discrete Sentinel
Sentinel-discrete = hlevel

pub data Error : Type 0 where
  -- `errors.New` and `fmt.Errorf` without `%w`
  plain : Text → Error
  sentinel : Sentinel → Error
  -- `fmt.Errorf` with `%w`
  wrapped : Text → Error → Error
  -- `*sandboxd.HTTPError`, with `StatusCode` and `Message`
  http_error : ℕ → Text → Error
  -- `*sandboxd.RedirectError`, with `Targets`
  redirect_error : List Text → Error
  -- `*net.OpError`, with `Op`
  op_error : Text → Error
  -- `*k8serrors.StatusError`, with `Code` and `Message`
  status_error : ℕ → Text → Error

-- A value and an error that Go returns together, of which one is set.
pub data Result {κ} (T : Type κ) : Type κ where
  err : Error → Result T
  ok : T → Result T

module _ {ℓ κ} {T : Type ℓ} {B : Type κ} where
  infixl 5 ◌>>=◌
  -- `if err != nil { return err }` before the rest
  abbrev pub ◌>>=◌ : Result T → (T → Result B) → Result B
  err e >>= next = err e
  ok x >>= next = next x

module _ {ℓ} {B : Type ℓ} where
  infixl 5 ◌>>◌
  abbrev pub ◌>>◌ : Result (Unit {0}) → Result B → Result B
  first >> next = first >>= λ _. next

-- An early return of the error when the condition does not hold.
abbrev pub require : Bool → Error → Result (Unit {0})
require holds e = if holds then ok tt else err e

-- `nodeVerbError` and its like: the error of a failed call is replaced.
abbrev pub or_error {ℓ} : {A : Type ℓ} → Result A → (Error → Error) → Result A
or_error (ok a) f = ok a
or_error (err e) f = err (f e)

abbrev pub same_sentinel : Sentinel → Sentinel → Bool
same_sentinel s t = elim (Sentinel-discrete s t) [ yes _ ↦ true | no _ ↦ false ]

abbrev at_capacity : Sentinel → Bool
at_capacity err_node_at_capacity = true
at_capacity _ = false

-- `errors.Is(err, target)`; `RedirectError.Is` makes a redirect match `ErrNodeAtCapacity`.
unfoldable pub is : Error → Sentinel → Bool
unfolding Sentinel-discrete
is (plain m) t = false
is (sentinel s) t = same_sentinel s t
is (wrapped m e) t = is e t
is (http_error code m) t = false
is (redirect_error targets) t = at_capacity t
is (op_error op) t = false
is (status_error code m) t = false

-- `errors.AsType[*sandboxd.HTTPError](err)`: the status code and the message.
unfoldable pub as_http_error : Error → Option (ℕ × Text)
as_http_error (http_error code m) = some (code, m)
as_http_error (wrapped m e) = as_http_error e
as_http_error _ = none

-- `errors.AsType[*sandboxd.RedirectError](err)`: the targets.
unfoldable pub as_redirect_error : Error → Option (List Text)
as_redirect_error (redirect_error targets) = some targets
as_redirect_error (wrapped m e) = as_redirect_error e
as_redirect_error _ = none

-- `errors.AsType[*net.OpError](err)`: the operation.
unfoldable pub as_op_error : Error → Option Text
as_op_error (op_error op) = some op
as_op_error (wrapped m e) = as_op_error e
as_op_error _ = none

-- `errors.AsType[*k8serrors.StatusError](err)`: the code and the message.
unfoldable pub as_status_error : Error → Option (ℕ × Text)
as_status_error (status_error code m) = some (code, m)
as_status_error (wrapped m e) = as_status_error e
as_status_error _ = none

-- `k8serrors.IsNotFound(err)`
unfoldable pub is_not_found : Error → Bool
unfolding as_status_error
is_not_found e = elim (as_status_error e) [ none ↦ false | some (code, m) ↦ nat_beq code 404 ]
