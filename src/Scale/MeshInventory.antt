-- ===== src/Scale/MeshInventory.antt =====
-- pkg/scale/meshinventory/source.go: the fleet's inventories by polling every member of the mesh. A
-- member is dialled at its address, and what it answers is a parameter, by address. A map is walked
-- in the order of its list, which stands for an arbitrary one. The background loop runs `tick`.
pub mod Seeds
mod Tests
use sandbox_operator.Prelude.{
  ℕ, suc, Bool, true, false, not, ◌&&◌, ◌||◌, Option, none, some, List, [], ◌∷◌, ◌++◌, map, ltb,
  nat_beq, if◌then◌else◌, ◌==◌, length, any, Text, codes, is_empty, contains, keys, is_some,
  text_eq, nat_eq,
}
use sandbox_operator.Prelude.Dict
use sandbox_operator.Prelude.Dict.{Dict}
use sandbox_operator.Errors.{
  Error, plain, sentinel, wrapped, err_no_advertise_addr, is, Result, ok, err, ◌>>=◌, as_http_error,
}
use sandbox_operator.Scale.Model.{
  PoolCapacity, NodeInventory, NodePools, NodeInfo, SandboxSummary, pool_capacity_from_info,
  templates_from_info,
}
use sandbox_operator.Scale.Entry.{Codecs, entry_from_summary}

pub record Member : Type 0 where
  pub seed : Bool
  pub fails : ℕ
  pub inv : Option NodeInventory

abbrev pub Members : Type 0
Members = Dict Text Member

-- `answer`: an inventory and peers, or an error.
pub data Answer : Type 0 where
  answered : NodeInventory → List Text → Answer
  silent : Error → Answer

abbrev with_rows : Codecs → NodeInfo → Result (List SandboxSummary) → Answer
with_rows c info (err e) = silent e
with_rows c info (ok rows) =
    answered
      (record {
        node = info.advertise_addr;
        entries = map (entry_from_summary c) rows;
        address = info.advertise_addr;
        pools = pool_capacity_from_info info;
        templates = templates_from_info info;
        published_at = none;
      })
      info.peers

-- `read`, of a member's two answers
unfoldable pub read : Codecs → Result NodeInfo → Result (List SandboxSummary) → Answer
read c (err e) rows = silent e
read c (ok info) rows =
    if is_empty info.advertise_addr
    then silent (sentinel err_no_advertise_addr)
    else with_rows c info rows

abbrev pub peers_of : Answer → List Text
peers_of (answered inv peers) = peers
peers_of (silent e) = []

abbrev pub is_heard : Answer → Bool
is_heard (answered inv peers) = true
is_heard (silent e) = false

-- The peers named by the members' answers, and whether any member answered.
abbrev pub named_by : (Text → Answer) → Members → List Text
named_by ask [] = []
named_by ask ((addr, m) ∷ d) = peers_of (ask addr) ++ named_by ask d

abbrev pub heard_any : (Text → Answer) → Members → Bool
heard_any ask = any (λ e. is_heard (ask e.0))

-- The first loop of `tick`, over one member: `none` when it is forgotten.
unfoldable pub age : ℕ → Bool → List Text → Text → Answer → Member → Option Member
age max_stale heard named addr (answered inv peers) m =
    some (record m { fails = 0; inv = some inv })
age max_stale heard named addr (silent e) m =
    if (not m.seed && heard) && (not (contains addr named) && ltb max_stale (suc m.fails))
    then none
    else some (record m { fails = suc m.fails })

abbrev pub cons_some : Text → Option Member → Members → Members
cons_some addr none d = d
cons_some addr (some m) d = (addr, m) ∷ d

unfoldable pub age_all : (Text → Answer) → ℕ → Bool → List Text → Members → Members
unfolding age
age_all ask max_stale heard named [] = []
age_all ask max_stale heard named ((addr, m) ∷ d) =
    let rest = age_all ask max_stale heard named d in
    cons_some addr (age max_stale heard named addr (ask addr) m) rest

abbrev seed_of : Option Member → Bool
seed_of none = false
seed_of (some m) = m.seed

abbrev pub seed_at : Text → Members → Bool
seed_at addr d = seed_of (Dict.get addr d)

-- The second loop of `tick`, at a member that answered under `key`: of two members of one node the
-- seed stays, and of two that are no seeds the one at the node's own address.
unfoldable pub own : Text → Text → Option Text → Members × Dict Text Text → Members × Dict Text Text
own addr key none (d, owner) = (d, Dict.put key addr owner)
own addr key (some other) (d, owner) =
    if seed_at addr d && seed_at other d
    then (d, owner)
    else if seed_at addr d || (not (seed_at other d) && addr == key)
    then (Dict.delete other d, Dict.put key addr owner)
    else (Dict.delete addr d, owner)

abbrev pub own_answer : Text → Answer → Members × Dict Text Text → Members × Dict Text Text
own_answer addr (silent e) x = x
own_answer addr (answered inv peers) (d, owner) =
    own addr inv.node (Dict.get inv.node owner) (d, owner)

-- A member deleted before its turn is not visited.
unfoldable pub own_all :
    (Text → Answer) → List Text → Members × Dict Text Text → Members × Dict Text Text
unfolding own
own_all ask [] x = x
own_all ask (addr ∷ addrs) x =
    own_all ask addrs (if is_some (Dict.get addr x.0) then own_answer addr (ask addr) x else x)

abbrev pub new_member : Bool → Member
new_member seed = record { seed = seed; fails = 0; inv = none }

-- The third loop of `tick`.
unfoldable pub join : List Text → Dict Text Text → Members → Members
join [] owner d = d
join (addr ∷ addrs) owner d = join addrs owner (
    if is_some (Dict.get addr d) || is_some (Dict.get addr owner)
    then d
    else Dict.put addr (new_member false) d)

-- `tick`, before it publishes
unfoldable pub tick : (Text → Answer) → ℕ → Members → Members
unfolding age_all own_all join
tick ask max_stale members =
    let named = named_by ask members in
    let aged = age_all ask max_stale (heard_any ask members) named members in
    let owned = own_all ask (keys aged) (aged, []) in join named owned.1 owned.0

-- The members of `New`, before its first tick.
unfoldable pub seeded : List Text → Members → Members
seeded [] d = d
seeded (addr ∷ addrs) d = seeded addrs (Dict.put addr (new_member true) d)

abbrev is_401 : Option (ℕ × Text) → Bool
is_401 none = false
is_401 (some (code, m)) = nat_beq code 401

-- `isUnauthorized`
unfoldable pub is_unauthorized : Error → Bool
is_unauthorized e = is_401 (as_http_error e)

-- The loop of `New` over the seeds' answers: whether one answered, or why the source is refused.
unfoldable pub check_seeds : (Text → Answer) → List Text → Bool → Result Bool
unfolding is_unauthorized
check_seeds ask [] heard = ok heard
check_seeds ask (addr ∷ addrs) heard = elim (ask addr) [
  | answered inv peers ↦ check_seeds ask addrs true
  | silent e ↦
      if is_unauthorized e
      then err (wrapped (codes "meshinventory: seed refused the token") e)
      else if is e err_no_advertise_addr
      then err (wrapped (codes "meshinventory: seed") e)
      else check_seeds ask addrs heard
]

abbrev grown : (Text → Answer) → ℕ → Members → Members → Members
grown ask max_stale before after =
    if ltb (length before) (length after) then tick ask max_stale after else after

abbrev accepted : (Text → Answer) → ℕ → Members → Members → Result Bool → Result Members
accepted again max_stale before after (err e) = err e
accepted again max_stale before after (ok false) =
    err (plain (codes "meshinventory: no seed answered"))
accepted again max_stale before after (ok true) = ok (grown again max_stale before after)

-- `New`, up to the background loop: `ask` answers its first tick, and `again` its second.
unfoldable pub new : (Text → Answer) → (Text → Answer) → ℕ → List Text → Result Members
unfolding seeded tick check_seeds
new ask again max_stale [] = err (plain (codes "meshinventory: at least one seed is required"))
new ask again max_stale (addr ∷ addrs) =
    let before = seeded (addr ∷ addrs) [] in
    accepted again (if nat_beq max_stale 0 then 3 else max_stale) before
      (tick ask (if nat_beq max_stale 0 then 3 else max_stale) before)
      (check_seeds ask (addr ∷ addrs) false)
