-- ===== src/DataIdQueue.antt =====
-- NFD/daemon/fw/lltc-common.cpp (ndnSIM/ns-3/src/ndnSIM): `LltcDataIdQueue`, the queue of the data
-- IDs that a node has already passed on, with a set for membership and the time of each entry.
-- `none` is `front()` or `pop()` on an empty `std::queue`. `n` is a `size_t`.
pub mod Invariant
pub mod Capacity
use drtp.Base.{
  ℕ, ◌+◌, ◌-◌, ◌%◌, ◌^◌, Bool, Option, none, some, List, [], ◌∷◌, ◌++◌, ◌==◌, if◌then◌else◌, ◌>>=◌,
}
use drtp.Base.Seqs.{length, elem, insert, remove}
use drtp.Base.Maps.{find, assign, erase}

pub record LltcDataIdQueue : Type 0 where
  pub q : List ℕ
  pub set : List ℕ
  pub data_id_add_time_map : List (ℕ × ℕ)
  pub n : ℕ

abbrev pub empty : LltcDataIdQueue
empty = record { q = []; set = []; data_id_add_time_map = []; n = 0 }

unfoldable pub set_len : LltcDataIdQueue → ℕ → LltcDataIdQueue
set_len d n = record d { n = n }

unfoldable pub contains : LltcDataIdQueue → ℕ → Bool
contains d x = elem x d.set

-- `set.erase(x0); dataIdAddTimeMap.erase(x0); --n`, once `x0` has left the queue.
unfoldable pub drop_front : LltcDataIdQueue → ℕ → List ℕ → LltcDataIdQueue
drop_front d x0 rest = record {
  q = rest;
  set = remove x0 d.set;
  data_id_add_time_map = erase x0 d.data_id_add_time_map;
  n = (d.n + 2 ^ 64 - 1) % 2 ^ 64;
}

-- `x0 = q.front(); q.pop();` and what follows.
take_front : LltcDataIdQueue → List ℕ → Option (ℕ × LltcDataIdQueue)
unfolding drop_front
take_front d [] = none
take_front d (x0 ∷ rest) = some (x0, drop_front d x0 rest)

-- `q.push(x); set.insert(x); dataIdAddTimeMap[x] = time; ++n`.
unfoldable pub append : LltcDataIdQueue → ℕ → ℕ → LltcDataIdQueue
append d x time = record {
  q = d.q ++ (x ∷ []);
  set = insert x d.set;
  data_id_add_time_map = assign x time d.data_id_add_time_map;
  n = (d.n + 1) % 2 ^ 64;
}

unfoldable pub push : LltcDataIdQueue → ℕ → ℕ → Option LltcDataIdQueue
unfolding take_front append
push d x time =
    if elem x d.set
    then some d
    else if length d.q == d.n
    then (take_front d d.q >>= λ r. some (append (r.1) x time))
    else some (append d x time)

unfoldable pub pop : LltcDataIdQueue → Option (ℕ × LltcDataIdQueue)
unfolding take_front
pop d = take_front d d.q

unfoldable pub size : LltcDataIdQueue → ℕ
size d = d.n

time_or_zero : Option ℕ → ℕ
time_or_zero none = 0
time_or_zero (some t) = t

unfoldable pub get_data_id_add_time : LltcDataIdQueue → ℕ → ℕ
unfolding time_or_zero
get_data_id_add_time d x = time_or_zero (find x d.data_id_add_time_map)
