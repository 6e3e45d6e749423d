-- ===== src/E2b/Sandboxes.antt =====
-- pkg/e2bcompat/server.go and lifecycle.go: the verbs that pause, resume, extend and delete a sandbox.
-- Their arguments are the decoded requests; `ns` is the caller's namespace.
use sandbox_operator.Prelude.{
  ℕ, Bool, true, false, not, ◌&&◌, ◌||◌, Option, none, some, [], ◌∷◌, ◌++◌, if◌then◌else◌, ◌==◌,
  Text, codes, is_empty, text_eq, nat_eq,
}
use sandbox_operator.Prelude.Dict
use sandbox_operator.Prelude.Int.{ℤ, pos}
use sandbox_operator.Errors.{Error, sentinel, err_no_such_sandbox, Result, ok, err, is_not_found}
use sandbox_operator.Scale.Entry.{Sandbox}
use sandbox_operator.Scale.Lifecycle.{SandboxRecord}
use sandbox_operator.Storage.{claim_id_of}
use sandbox_operator.E2b.{
  reads, pauses, resumes, renews, releases, Backend, Server, nothing, view, Reply, refuses, answers,
  goes, Verb, ◌>>=◌, go_on, reply, or_reply, verb_error, lookup_error, looked_up, performed,
  read_back, timeout_seconds, template_of, sandbox_of, int_leb, int_max,
}

abbrev pub is_false : Option Bool → Bool
is_false none = false
is_false (some flag) = not flag

abbrev hibernated : Sandbox → Bool
hibernated sb =
    (elim (Dict.get (codes "sandbox.cocoonstack.io/phase") sb.labels) [
      | none ↦ []
      | some phase ↦ phase
    ])
    == codes "Hibernated"

abbrev paused_or : Sandbox → Result SandboxRecord → Result Bool
paused_or sb (ok rec) = ok rec.paused
paused_or sb (err e) =
    if is_not_found e then err (sentinel err_no_such_sandbox) else ok (hibernated sb)

-- `expireFor`
unfoldable pub expire_for : Option Bool → Text
expire_for none = []
expire_for (some auto_pause) = if auto_pause then codes "archive" else codes "destroy"

module _ (b : Backend) (s : Server) (ns id : Text) where
  -- `isPaused`, and what its caller makes of an error
  unfoldable pub is_paused : Sandbox → Verb Bool
  unfolding lookup_error
  is_paused sb calls =
      let node = sb.node_name in
      let claim = claim_id_of sb in
      if not (is_empty node) && not (is_empty claim)
      then (
        or_reply (lookup_error b id) (paused_or sb (b.read calls node claim)),
        reads node claim ∷ calls,
      )
      else (goes (hibernated sb), calls)

  -- `pauseSandbox`, with the request's `memory`
  unfoldable pub pause : Option Bool → Verb Reply
  unfolding looked_up is_paused verb_error
  pause memory =
      if is_false memory
      then reply (refuses 400 (codes "filesystem-only pause (memory=false) is not supported"))
      else looked_up b ns id >>= λ sb. is_paused sb >>= λ paused.
          if paused
          then reply (refuses 409 (codes "sandbox " ++ (b.quoted id ++ codes " is already paused")))
          else performed b (verb_error b id (codes "failed to pause the sandbox"))
              (pauses sb.node_name (claim_id_of sb))
            >>= λ _. go_on (answers 204 nothing)

  abbrev pub connect_error : Error → Reply
  connect_error = verb_error b id (codes "failed to connect the sandbox")

  -- A paused sandbox is resumed, and read again.
  abbrev pub resumed : Sandbox → SandboxRecord → Verb (ℕ × SandboxRecord)
  resumed sb rec =
      if rec.paused
      then (performed b (verb_error b id (codes "failed to resume the sandbox"))
            (resumes sb.node_name (claim_id_of sb))
          >>= λ _. read_back b connect_error sb.node_name (claim_id_of sb) >>= λ again.
              go_on (201, again))
      else go_on (200, rec)

  -- The renewal at the end of `connect`.
  unfoldable pub extend : Sandbox → SandboxRecord → Option ℤ → Text → Verb (Unit {0})
  unfolding verb_error timeout_seconds
  extend sb rec timeout on_expire calls =
      let ttl = timeout_seconds s timeout in
      let left = b.left calls rec.deadline in
      if not (int_leb ttl left) || not (is_empty on_expire)
      then performed b connect_error
          (renews sb.node_name (claim_id_of sb) (int_max ttl left) on_expire) calls
      else (goes tt, calls)

  -- `connect`
  unfoldable pub connect : Option Bool → Option ℤ → Bool → Option Bool → Verb Reply
  unfolding looked_up verb_error extend expire_for sandbox_of template_of
  connect memory timeout refuse_running auto_pause =
      if is_false memory
      then reply (refuses 400 (codes "memory=false is not supported"))
      else looked_up b ns id >>= λ sb.
          read_back b connect_error sb.node_name (claim_id_of sb) >>= λ rec.
          if not rec.paused && refuse_running
          then reply
              (refuses 409 (codes "sandbox " ++ (b.quoted id ++ codes " is already running")))
          else resumed sb rec >>= λ now. extend sb now.1 timeout (expire_for auto_pause) >>= λ _.
              go_on (
                answers now.0 (
                  view (
                    sandbox_of b s (template_of sb) (claim_id_of sb) sb.node_name
                      (b.derive now.1.token))))

  -- `connectSandbox`
  unfoldable pub connect_sandbox : Option Bool → Option ℤ → Verb Reply
  unfolding connect
  connect_sandbox memory timeout = connect memory timeout false none

  -- `resumeSandbox`
  unfoldable pub resume_sandbox : Option Bool → Option ℤ → Option Bool → Verb Reply
  unfolding connect
  resume_sandbox memory timeout auto_pause = connect memory timeout true auto_pause

  -- `deleteSandbox`
  unfoldable pub delete_sandbox : Verb Reply
  unfolding looked_up
  delete_sandbox = looked_up b ns id >>= λ sb.
      if is_empty sb.node_name
      then reply (refuses 500 (codes "failed to release the sandbox"))
      else performed b (λ e. refuses 500 (codes "failed to release the sandbox"))
          (releases sb.node_name (claim_id_of sb))
        >>= λ _. go_on (answers 204 nothing)

  -- `renew`
  unfoldable pub renew : ℤ → Verb Reply
  unfolding looked_up verb_error
  renew ttl = looked_up b ns id >>= λ sb.
      performed b (verb_error b id (codes "failed to extend the sandbox lease"))
        (renews sb.node_name (claim_id_of sb) ttl [])
      >>= λ _. go_on (answers 204 nothing)

  -- `setTimeout`
  unfoldable pub set_timeout : ℤ → Verb Reply
  unfolding renew
  set_timeout timeout =
      if not (int_leb (pos 0) timeout)
      then reply (refuses 400 (codes "timeout must be >= 0"))
      else renew timeout

  abbrev positive_or : ℤ → Option ℤ → ℤ
  positive_or ttl none = ttl
  positive_or ttl (some duration) = if int_leb (pos 1) duration then duration else ttl

  -- `refresh`
  unfoldable pub refresh : Option ℤ → Verb Reply
  unfolding renew
  refresh duration = renew (positive_or s.default_timeout duration)
