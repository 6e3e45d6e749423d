-- ===== src/E2b/PageKey.antt =====
-- pkg/e2bcompat/server.go: the keys that a list of sandboxes is sorted and cut by.
use sandbox_operator.Prelude.{
  ◌≡◌, refl, Bool, true, false, [], ◌∷◌, arith, if◌then◌else◌, ◌==◌, text_beq_iff, Text, text_leb,
  text_eq, nat_eq,
}
use sandbox_operator.E2b.Ordered.{Order}

-- `pageKey`: `startedAt` and `sandboxID`
abbrev pub PageKey : Type 0
PageKey = Text × Text

abbrev pub lexical : PageKey → PageKey → Bool
lexical (s, i) (t, j) = if s == t then text_leb i j else text_leb s t

-- `listPage.compare(a, b) <= 0`
unfoldable pub compares_le : Bool → PageKey → PageKey → Bool
compares_le desc a b = if desc then lexical b a else lexical a b

text_leb_total : (s t : Text) → text_leb s t ≡ false → text_leb t s ≡ true
text_leb_total [] t h = absurd (ground arith)
text_leb_total (c ∷ s) [] h = refl
text_leb_total (c ∷ s) (d ∷ t) h = ground (arith, text_leb_total s t)

text_leb_refl : (s : Text) → text_leb s s ≡ true
text_leb_refl [] = refl
text_leb_refl (c ∷ s) = ground (arith, text_leb_refl s)

text_leb_trans : (s t r : Text) → text_leb s t ≡ true → text_leb t r ≡ true → text_leb s r ≡ true
text_leb_trans [] t r h k = refl
text_leb_trans (c ∷ s) [] r h k = absurd (ground arith)
text_leb_trans (c ∷ s) (d ∷ t) [] h k = absurd (ground arith)
text_leb_trans (c ∷ s) (d ∷ t) (e ∷ r) h k = ground (arith, text_leb_trans s t r)

text_leb_antisym : (s t : Text) → text_leb s t ≡ true → text_leb t s ≡ true → s ≡ t
text_leb_antisym [] [] h k = refl
text_leb_antisym [] (d ∷ t) h k = absurd (ground arith)
text_leb_antisym (c ∷ s) [] h k = absurd (ground arith)
text_leb_antisym (c ∷ s) (d ∷ t) h k = ground (arith, text_leb_antisym s t)

lexical_total : (a b : PageKey) → lexical a b ≡ false → lexical b a ≡ true
lexical_total (s, i) (t, j) h =
    ground (arith, text_leb_total s t, text_leb_total i j, text_beq_iff s t, text_beq_iff t s)

lexical_refl : (a : PageKey) → lexical a a ≡ true
lexical_refl (s, i) = ground (arith, text_leb_refl s, text_leb_refl i)

lexical_antisym : (a b : PageKey) → lexical a b ≡ true → lexical b a ≡ true → a ≡ b
lexical_antisym (s, i) (t, j) h k =
    ground (arith, text_leb_antisym s t, text_leb_antisym i j, text_beq_iff s t, text_beq_iff t s)

lexical_trans : (a b c : PageKey) → lexical a b ≡ true → lexical b c ≡ true → lexical a c ≡ true
lexical_trans (s, i) (t, j) (r, k) h g = ground (
  arith,
  text_leb_trans s t r,
  text_leb_trans i j k,
  text_leb_antisym s t,
  text_beq_iff s t,
  text_beq_iff t r,
  text_beq_iff s r,
)

pub compares_total :
    (desc : Bool) (a b : PageKey) → compares_le desc a b ≡ false → compares_le desc b a ≡ true
unfolding compares_le
compares_total true a b = lexical_total b a
compares_total false a b = lexical_total a b

pub compares_refl : (desc : Bool) (a : PageKey) → compares_le desc a a ≡ true
unfolding compares_le
compares_refl true a = lexical_refl a
compares_refl false a = lexical_refl a

pub compares_trans :
    (desc : Bool) (a b c : PageKey)
    → compares_le desc a b ≡ true
    → compares_le desc b c ≡ true
    → compares_le desc a c ≡ true
unfolding compares_le
compares_trans true a b c h k = lexical_trans c b a k h
compares_trans false a b c h k = lexical_trans a b c h k

pub compares_antisym :
    (desc : Bool) (a b : PageKey)
    → compares_le desc a b ≡ true
    → compares_le desc b a ≡ true
    → a ≡ b
unfolding compares_le
compares_antisym true a b h k = lexical_antisym a b k h
compares_antisym false a b h k = lexical_antisym a b h k

-- `listPage.compare` orders the keys.
abbrev pub key_order : Bool → Order PageKey
key_order desc = record {
  below = compares_le desc;
  below_total = compares_total desc;
  below_refl = compares_refl desc;
  below_trans = compares_trans desc;
  below_antisym = compares_antisym desc;
}
