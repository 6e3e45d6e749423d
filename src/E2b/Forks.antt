-- ===== src/E2b/Forks.antt =====
-- pkg/e2bcompat/lifecycle.go and envd.go: a fork hands each child over, or gives all of them back.
-- The hand-overs run at once; they are taken one after the other, in any order of the children.
pub mod Handed
use sandbox_operator.Prelude.{
  Bool, false, not, Option, none, some, List, [], ◌∷◌, ◌++◌, map, if◌then◌else◌, any, Text, codes,
}
use sandbox_operator.Prelude.Int.{ℤ, pos}
use sandbox_operator.Errors.{Error, Result, ok, err}
use sandbox_operator.Scale.Claim.{Assignment}
use sandbox_operator.Scale.Entry.{Sandbox}
use sandbox_operator.Storage.{claim_id_of}
use sandbox_operator.E2b.{
  Call, releases, forks, marks, inits, Backend, Server, Body, View, views, Reply, refuses, answers,
  Step, goes, replies, Verb, ◌>>=◌, go_on, reply, or_reply, verb_error, looked_up, timeout_seconds,
  template_of, sandbox_of, int_leb,
}
use sandbox_operator.E2b.Sandboxes.{is_paused}

module _ (b : Backend) where
  abbrev pub init_after : Assignment → List Call → Result (Unit {0}) → Option Error × List Call
  init_after child calls (err e) = (some e, calls)
  init_after child calls (ok _) =
      let c = inits child.node child.sandbox_name (b.derive child.token) in
      let failed : Option Error = elim (b.perform calls c) [ err e ↦ some e | ok _ ↦ none ] in
      (failed, c ∷ calls)

  -- `handOver`: the error, if any
  unfoldable pub hand_over : Assignment → List Call → Option Error × List Call
  hand_over child calls =
      let c = marks child.node child.sandbox_name (b.hash_document (b.derive child.token)) in
      init_after child (c ∷ calls) (b.perform calls c)

  abbrev pub first_error : Option Error → Option Error → Option Error
  first_error (some e) later = some e
  first_error none later = later

  -- Every child is handed over, whether or not another fails; the first error is kept.
  unfoldable pub hand_over_all : List Assignment → List Call → Option Error × List Call
  unfolding hand_over
  hand_over_all [] calls = (none, calls)
  hand_over_all (child ∷ children) calls =
      let (e, calls') = hand_over child calls in
      let (e', calls'') = hand_over_all children calls' in (first_error e e', calls'')

  -- `releaseAll`; errors only reach the process log.
  unfoldable pub release_all : List Assignment → List Call → List Call
  release_all [] calls = calls
  release_all (a ∷ claims) calls = release_all claims (releases a.node a.sandbox_name ∷ calls)

  module _ (s : Server) (ns id : Text) where
    abbrev pub handed : Text → List Assignment → Option Error × List Call → Step Reply × List Call
    handed template children (some e, calls) = (
      replies (verb_error b id (codes "failed to fork the sandbox") e),
      release_all children calls,
    )
    handed template children (none, calls) = (
      goes (
          answers 201 (
            views (
              map (λ c. sandbox_of b s template c.sandbox_name c.node (b.derive c.token))
                children))),
      calls,
    )

    abbrev pub forked : Sandbox → Result (List Assignment) → Verb Reply
    forked sb (err e) calls =
        (replies (verb_error b id (codes "failed to fork the sandbox") e), calls)
    forked sb (ok children) calls = handed (template_of sb) children (hand_over_all children calls)

    abbrev count_of : Option ℤ → ℤ
    count_of none = pos 1
    count_of (some n) = n

    abbrev negative : Option ℤ → Bool
    negative none = false
    negative (some t) = not (int_leb (pos 0) t)

    -- `forkSandbox`, with the request's `count` and `timeout`
    unfoldable pub fork_sandbox : Option ℤ → Option ℤ → Verb Reply
    unfolding looked_up is_paused verb_error timeout_seconds template_of sandbox_of hand_over_all
        release_all
    fork_sandbox count timeout =
        if not (int_leb (pos 1) (count_of count))
        then reply (refuses 400 (codes "count must be >= 1"))
        else if negative timeout
        then reply (refuses 400 (codes "timeout must be >= 0"))
        else looked_up b ns id >>= λ sb. is_paused b s ns id sb >>= λ paused.
            if paused
            then reply (refuses 409 (codes "sandbox " ++ (b.quoted id ++ codes " is paused")))
            else (λ calls.
                let n = count_of count in
                let ttl = timeout_seconds s timeout in
                let claim = claim_id_of sb in
                forked sb (b.fork calls ns sb.node_name claim n ttl)
                  (forks ns sb.node_name claim n ttl ∷ calls))
