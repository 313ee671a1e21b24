-- ===== src/Cs.antt =====
-- The content store: table/cs.cpp (insert, and find by name) and `lookupInCs` and
-- `findClosestDataNameInCS` of lltc-strategy-service-sublayer-cs.cpp (NFD/daemon of
-- ndnSIM/ns-3/src/ndnSIM). The strategy looks up Capsule names only. The table is a list with one
-- entry for each name, newest first; no lookup depends on its order. Freshness times, unsolicited
-- marks and the cache-control tag are not modelled.
pub mod Closest
use drtp.Base.{
  ℕ, Bool, false, not, ◌&&◌, ◌||◌, Option, none, some, List, [], ◌∷◌, String, ◌==◌, ltb, str_eq,
  if◌then◌else◌,
}
use drtp.Messages.{Data, Body, capsule}
use drtp.Fs.{uint_max}
use drtp.State.{Cs}

-- Whether a packet's name is that of a capsule of the prefix: `some` of its data ID.
unfoldable pub capsule_id : Body → Option ℕ
capsule_id (capsule id content) = some id
capsule_id body = none

is_some_eq : ℕ → Option ℕ → Bool
is_some_eq id none = false
is_some_eq id (some x) = x == id

-- `m_data->getName() == name`, for the name `getCapsuleUri(prefix, id)`.
unfoldable pub names_capsule : String → ℕ → Data → Bool
unfolding capsule_id is_some_eq
names_capsule prefix id d = str_eq d.prefix prefix && is_some_eq id (capsule_id d.body)

unfoldable pub find_in : String → ℕ → List Data → Option Data
find_in prefix id [] = none
find_in prefix id (d ∷ ds) = if names_capsule prefix id d then some d else find_in prefix id ds

-- `localCs->find(name)`.
unfoldable pub find_capsule : Cs → String → ℕ → Option Data
find_capsule cs prefix id =
    if not cs.should_serve || cs.limit == 0 then none else find_in prefix id cs.table

-- `localCs->insert(data)` of a capsule with this name.
unfoldable pub insert : Cs → String → ℕ → Data → Cs
insert cs prefix id d =
    if not cs.should_admit || cs.limit == 0 then cs else elim (find_in prefix id cs.table) [
      | some old ↦ cs
      | none ↦ record cs { table = cs.after_insert (d ∷ cs.table) }
    ]

-- One round of the loop of `findClosestDataNameInCS` over the least ID so far.
unfoldable pub closer : String → ℕ → Data → ℕ → ℕ
unfolding capsule_id
closer prefix id d least = elim (capsule_id d.body) [
  | none ↦ least
  | some x ↦ if str_eq d.prefix prefix && ltb id x && ltb x least then x else least
]

unfoldable pub closest_in : String → ℕ → List Data → ℕ → ℕ
closest_in prefix id [] least = least
closest_in prefix id (d ∷ ds) least = closest_in prefix id ds (closer prefix id d least)

-- `CS_DATA_ID_NULL`, `UINT_MAX`, where no later capsule is stored.
unfoldable pub find_closest_data_name_in_cs : Cs → String → ℕ → ℕ
find_closest_data_name_in_cs cs prefix id = closest_in prefix id cs.table uint_max

-- What is found under the name of a closest capsule: the source dereferences `end()`, a fault, where
-- `find` does not serve it.
found_closest : ℕ → Option Data → Option (ℕ × Option Data)
found_closest id none = none
found_closest id (some d) = some (id, some d)

-- The ID of the data found, and the data; `(0, NULL)` where there is none.
unfoldable pub lookup_in_cs : Cs → String → ℕ → Bool → Option (ℕ × Option Data)
unfolding found_closest
lookup_in_cs cs prefix id is_exact = elim (find_capsule cs prefix id) [
  | some d ↦ some (id, some d)
  | none ↦
      if is_exact
      then some (0, none)
      else (let closest = find_closest_data_name_in_cs cs prefix id in
          if closest == uint_max
          then some (0, none)
          else found_closest closest (find_capsule cs prefix closest))
]
