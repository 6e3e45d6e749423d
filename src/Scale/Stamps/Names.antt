-- ===== src/Scale/Stamps/Names.antt =====
-- pkg/scale/sandboxstore_lifecycle.go: names stamped with their namespace.
use sandbox_operator.Prelude.{
  ℕ, ◌≤◌, ◌≡◌, refl, sym, ap, ◌∙◌, true, some, [], ◌∷◌, ◌++◌, arith, length, all, Text, codes, cut,
  Lacks, cut_prefix-append, cut_prefix_sound, cut-append,
}
use sandbox_operator.Errors.{ok}
use sandbox_operator.Scale.Stamps.{
  is_name_char, matches_name, stamped_name, checkpoint_name, checkpoint_name_in,
}

stamped_name-ok :
    (f : Text → Text) (kind prefix namespace name s : Text)
    → stamped_name f kind prefix namespace name ≡ ok s
    → (s ≡ prefix ++ (namespace ++ (b'/' ∷ name))) × (matches_name s ≡ true)
unfolding stamped_name
stamped_name-ok f kind prefix namespace name s h = ground arith

append-cons : (c : ℕ) (s t : Text) → s ++ (c ∷ t) ≡ (s ++ (c ∷ [])) ++ t
append-cons c [] t = refl
append-cons c (d ∷ s) t = ap (λ x. d ∷ x) (append-cons c s t)

-- A snapshot's name is found again under the namespace that it was stamped with.
pub checkpoint_name_in-checkpoint_name :
    (f : Text → Text) (namespace name s : Text)
    → checkpoint_name f namespace name ≡ ok s
    → checkpoint_name_in namespace s ≡ some name
unfolding checkpoint_name checkpoint_name_in
checkpoint_name_in-checkpoint_name f namespace name s h =
    let e = (stamped_name-ok f (codes "snapshot") [] namespace name s h).0 in
    rw (e, append-cons b'/' namespace name) (cut_prefix-append (namespace ++ (b'/' ∷ [])) name)

-- A snapshot stamped with one namespace is in no other: neither namespace holds a slash, as no
-- Kubernetes namespace does.
pub checkpoint_name_in-other :
    (f : Text → Text) (namespace other name s r : Text)
    → Lacks b'/' namespace
    → Lacks b'/' other
    → checkpoint_name f namespace name ≡ ok s
    → checkpoint_name_in other s ≡ some r
    → (other ≡ namespace) × (r ≡ name)
unfolding checkpoint_name checkpoint_name_in
checkpoint_name_in-other f namespace other name s r hn ho h k =
    let e = (stamped_name-ok f (codes "snapshot") [] namespace name s h).0 in
    let d = cut_prefix_sound s (other ++ (b'/' ∷ [])) r k ∙ sym (append-cons b'/' other r) in
    let c =
      sym (cut-append b'/' other r ho)
      ∙ ap (cut b'/') (sym d ∙ e)
      ∙ cut-append b'/' namespace name hn in
    ground arith

-- A stamped name is within the node's budget of 63 characters, and every character is one that the
-- node takes.
pub stamped_name-bounded :
    (f : Text → Text) (kind prefix namespace name s : Text)
    → stamped_name f kind prefix namespace name ≡ ok s
    → (length s ≤ 63) × (all is_name_char s ≡ true)
unfolding stamped_name matches_name
stamped_name-bounded f kind prefix namespace name [] h =
    ground (arith, stamped_name-ok f kind prefix namespace name [] h)
stamped_name-bounded f kind prefix namespace name (c ∷ s) h =
    ground (arith, stamped_name-ok f kind prefix namespace name (c ∷ s) h)
