-- ===== src/E2b/Leases.antt =====
-- The renewals of pkg/e2bcompat/lifecycle.go: connecting to a sandbox does not shorten its lease.
use sandbox_operator.Prelude.{
  ℕ, ◌≡◌, refl, subst, Bool, true, false, not, ◌&&◌, ◌||◌, Option, List, [], ◌∷◌, arith,
  if◌then◌else◌, Text, is_empty,
}
use sandbox_operator.Prelude.Int.{ℤ, pos, negsuc}
use sandbox_operator.Errors.{Error, Result, ok, err}
use sandbox_operator.Scale.Entry.{Sandbox}
use sandbox_operator.Scale.Lifecycle.{SandboxRecord}
use sandbox_operator.Storage.{claim_id_of}
use sandbox_operator.E2b.{
  Call, reads, renews, Backend, Server, Reply, Step, goes, replies, Verb, follow, ◌>>=◌, or_reply,
  lookup_error, lookup, looked_up, timeout_seconds, int_leb, int_max, read_back,
}
use sandbox_operator.E2b.Sandboxes.{is_false, expire_for, resumed, extend, connect, connect_error}

int_leb-max : (a b : ℤ) → int_leb b (int_max a b) ≡ true
int_leb-max (pos m) (pos n) = ground arith
int_leb-max (pos m) (negsuc n) = refl
int_leb-max (negsuc m) (pos n) = ground arith
int_leb-max (negsuc m) (negsuc n) = ground arith

module _ (b : Backend) where
  -- The sandbox was just read, as `rec`.
  abbrev pub JustRead : Text → Text → SandboxRecord → List Call → Type 0
  JustRead node id rec calls =
      (before : List Call) × (calls ≡ reads node id ∷ before) × (b.read before node id ≡ ok rec)

  -- A renewal follows a read of the sandbox, and is for no less than the seconds that were left.
  abbrev pub Keeps : Call → List Call → Type 0
  Keeps (renews node id ttl on_expire) calls =
      (rec : SandboxRecord) × JustRead node id rec calls
      × (int_leb (b.left calls rec.deadline) ttl ≡ true)
  Keeps _ calls = Unit

  abbrev pub KeepsLeases : List Call → Type 0
  KeepsLeases [] = Unit
  KeepsLeases (c ∷ calls) = Keeps c calls × KeepsLeases calls

  keeps_follow :
      {A B : Type 0} (next : A → Verb B) (r : Step A) (calls : List Call)
      → KeepsLeases calls
      → ((a : A) → r ≡ goes a → KeepsLeases (next a calls).1)
      → KeepsLeases (follow next (r, calls)).1
  keeps_follow next (goes a) calls h k = k a refl
  keeps_follow next (replies x) calls h k = h

  keeps_if :
      {A : Type 0} (c : Bool) (x y : Verb A) (calls : List Call)
      → KeepsLeases (x calls).1
      → KeepsLeases (y calls).1
      → KeepsLeases ((if c then x else y) calls).1
  keeps_if true x y calls hx hy = hx
  keeps_if false x y calls hx hy = hy

  or_reply-ok :
      {A : Type 0} (f : Error → Reply) (r : Result A) (a : A) → or_reply f r ≡ goes a → r ≡ ok a
  or_reply-ok f (ok x) a h = ground arith
  or_reply-ok f (err e) a h = absurd (ground arith)

  keeps_either :
      {A : Type 0} (c : Bool) (x y : Step A × List Call)
      → KeepsLeases x.1
      → KeepsLeases y.1
      → KeepsLeases (if c then x else y).1
  keeps_either true x y hx hy = hx
  keeps_either false x y hx hy = hy

  -- A record that is given was just read.
  abbrev Fresh : Sandbox → Step (ℕ × SandboxRecord) × List Call → Type 0
  Fresh sb x =
      KeepsLeases x.1
      × ((a : ℕ × SandboxRecord) → x.0 ≡ goes a → JustRead sb.node_name (claim_id_of sb) a.1 x.1)

  goes-Fresh :
      (sb : Sandbox) (status : ℕ) (rec : SandboxRecord) (calls : List Call)
      → KeepsLeases calls
      → JustRead sb.node_name (claim_id_of sb) rec calls
      → Fresh sb (goes (status, rec), calls)
  goes-Fresh sb status rec calls h j = (
    h,
    λ a e.
        let same : rec ≡ a.1 = ground arith in
        subst (λ r. JustRead sb.node_name (claim_id_of sb) r calls) same j,
  )

  replies-Fresh :
      (sb : Sandbox) (x : Reply) (calls : List Call)
      → KeepsLeases calls
      → Fresh sb (replies x, calls)
  replies-Fresh sb x calls h = (h, λ a e. absurd (ground arith))

  read_back-Fresh :
      (sb : Sandbox) (f : Error → Reply) (calls : List Call) (r : Result SandboxRecord)
      → b.read calls sb.node_name (claim_id_of sb) ≡ r
      → KeepsLeases calls
      → Fresh sb (
          follow
            (λ again c. (goes (201, again), c))
            (or_reply f r, reads sb.node_name (claim_id_of sb) ∷ calls))
  read_back-Fresh sb f calls (ok rec) e h = goes-Fresh sb 201 rec _ (tt, h) (calls, refl, e)
  read_back-Fresh sb f calls (err x) e h = replies-Fresh sb (f x) _ (tt, h)

  resumed_from-Fresh :
      (sb : Sandbox) (f : Error → Reply) (calls : List Call) (r : Step (Unit {0}))
      → KeepsLeases calls
      → Fresh sb (
          follow
            (λ _. read_back b f sb.node_name (claim_id_of sb) >>= λ again c. (goes (201, again), c))
            (r, calls))
  resumed_from-Fresh sb f calls (goes _) h = read_back-Fresh sb f calls _ refl h
  resumed_from-Fresh sb f calls (replies x) h = replies-Fresh sb x calls h

  if-Fresh :
      (sb : Sandbox) (c : Bool) (x y : Verb (ℕ × SandboxRecord)) (calls : List Call)
      → Fresh sb (x calls)
      → Fresh sb (y calls)
      → Fresh sb ((if c then x else y) calls)
  if-Fresh sb true x y calls hx hy = hx
  if-Fresh sb false x y calls hx hy = hy

  module _ (s : Server) (ns id : Text) where
    extend-KeepsLeases :
        (sb : Sandbox) (rec : SandboxRecord) (timeout : Option ℤ) (on_expire : Text)
        (calls : List Call)
        → JustRead sb.node_name (claim_id_of sb) rec calls
        → KeepsLeases calls
        → KeepsLeases (extend b s ns id sb rec timeout on_expire calls).1
    unfolding extend
    extend-KeepsLeases sb rec timeout on_expire calls j h =
        let ttl = timeout_seconds s timeout in
        let left = b.left calls rec.deadline in
        keeps_either (not (int_leb ttl left) || not (is_empty on_expire)) _ _
          ((rec, j, int_leb-max ttl left), h) h

    resumed-Fresh :
        (sb : Sandbox) (rec : SandboxRecord) (calls : List Call)
        → JustRead sb.node_name (claim_id_of sb) rec calls
        → KeepsLeases calls
        → Fresh sb (resumed b s ns id sb rec calls)
    resumed-Fresh sb rec calls j h =
        if-Fresh sb rec.paused _ _ calls
          (resumed_from-Fresh sb (connect_error b s ns id) _ _ (tt, h))
          (goes-Fresh sb 200 rec calls h j)

    -- Connecting to a sandbox, or resuming it, never shortens its lease: each renewal directly follows a
    -- read of that sandbox from its node, made after any resume, and is for at least the seconds that
    -- were left of the lease which that read found.
    pub connect-KeepsLeases :
        (memory : Option Bool) (timeout : Option ℤ) (refuse_running : Bool)
        (auto_pause : Option Bool) (calls : List Call)
        → KeepsLeases calls
        → KeepsLeases (connect b s ns id memory timeout refuse_running auto_pause calls).1
    unfolding connect looked_up
    connect-KeepsLeases memory timeout refuse_running auto_pause calls h =
        keeps_if (is_false memory) _ _ calls h (
          keeps_follow _ (or_reply (lookup_error b id) (lookup b ns id calls)) calls h λ sb _.
            let now = reads sb.node_name (claim_id_of sb) ∷ calls in
            keeps_follow _
              (or_reply (connect_error b s ns id) (b.read calls sb.node_name (claim_id_of sb))) now
              (tt, h)
              λ rec e.
                let j : JustRead sb.node_name (claim_id_of sb) rec now =
                  (calls, refl, or_reply-ok (connect_error b s ns id) _ rec e) in
                let x = resumed b s ns id sb rec now in
                let (keeps, fresh) = resumed-Fresh sb rec now j (tt, h) in
                keeps_if (not rec.paused && refuse_running) _ _ now (tt, h)
                  (keeps_follow _ x.0 x.1 keeps λ a went.
                    let y = extend b s ns id sb a.1 timeout (expire_for auto_pause) x.1 in
                    let kept =
                      extend-KeepsLeases sb a.1 timeout (expire_for auto_pause) x.1 (fresh a went)
                        keeps in
                    keeps_follow _ y.0 y.1 kept λ _ _. kept))
