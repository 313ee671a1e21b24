-- ===== src/DataIdQueue/Invariant.antt =====
-- `LltcDataIdQueue` (lltc-common.cpp): its queue, its set and its map stay in step.
use drtp.Base.{
  ℕ, ◌≡◌, refl, true, false, ◌≢◌, ◌⊎◌, inl, inr, ◌||◌, none, some, List, [], ◌∷◌, ◌++◌, arith, ◌==◌,
  if◌then◌else◌, Bool-cases, of_result, no_result,
}
use drtp.Base.Seqs.{elem, Distinct, length, elem-insert, elem-remove, elem-append}
use drtp.Base.Maps.{find, assign, erase, has_key, find-assign, find-erase}
use drtp.DataIdQueue.{LltcDataIdQueue, contains, drop_front, append, push, empty, set_len}

-- The set and the map hold the IDs of the queue, and the queue holds each once.
pub record IsValid (d : LltcDataIdQueue) : Type 0 where
  pub agree : (x : ℕ) → elem x d.set ≡ elem x d.q
  pub timed : (x : ℕ) → has_key x d.data_id_add_time_map ≡ elem x d.q
  pub distinct : Distinct d.q

append-Distinct : (x : ℕ) (xs : List ℕ) → elem x xs ≡ false → Distinct xs → Distinct (xs ++ x ∷ [])
unfolding elem
append-Distinct x [] h d = (refl, tt)
append-Distinct x (y ∷ ys) h d = ground (arith, elem-append y ys (x ∷ []), append-Distinct x ys)

has_key-assign :
    (k j v : ℕ) (m : List (ℕ × ℕ)) → has_key j (assign k v m) ≡ ((k == j) || has_key j m)
has_key-assign k j v m = ground (arith, find-assign k j v m)

has_key-erase :
    (k j : ℕ) (m : List (ℕ × ℕ)) → has_key j (erase k m) ≡ (if k == j then false else has_key j m)
has_key-erase k j m = ground (arith, find-erase k j m)

elem-snoc : (x y : ℕ) (xs : List ℕ) → elem y (xs ++ x ∷ []) ≡ ((x == y) || elem y xs)
unfolding elem
elem-snoc x y xs = ground (arith, elem-append y xs (x ∷ []))

append-IsValid :
    (d : LltcDataIdQueue) (x time : ℕ)
    → elem x d.set ≡ false
    → IsValid d
    → IsValid (append d x time)
unfolding append
append-IsValid d x time fresh v = record {
  agree = λ y. ground (arith, elem-insert x y d.set, elem-snoc x y d.q, v.agree y);
  timed = λ y.
      ground (arith, has_key-assign x y time d.data_id_add_time_map, elem-snoc x y d.q, v.timed y);
  distinct = append-Distinct x d.q (ground (arith, v.agree x)) v.distinct;
}

drop_front-IsValid :
    (d : LltcDataIdQueue) (x : ℕ) (rest : List ℕ)
    → d.q ≡ x ∷ rest
    → IsValid d
    → IsValid (drop_front d x rest)
unfolding drop_front elem
drop_front-IsValid d x rest e v = record {
  agree = λ y. ground (arith, elem-remove x y d.set, v.agree y, e, absent, same y);
  timed =
      λ y. ground (arith, has_key-erase x y d.data_id_add_time_map, v.timed y, e, absent, same y);
  distinct = parts.1;
}
  where
    parts : Distinct (x ∷ rest)
    parts = rw e at v.distinct

    absent : elem x rest ≡ false
    absent = parts.0

    same : (y : ℕ) → x ≡ y → elem y rest ≡ false
    same y p = rw (← p) absent

front_gone :
    (d : LltcDataIdQueue) (x : ℕ) (rest : List ℕ) → elem x (drop_front d x rest).set ≡ false
unfolding drop_front
front_gone d x rest = ground (arith, elem-remove x x d.set)

pub empty-IsValid : (n : ℕ) → IsValid (set_len empty n)
unfolding set_len elem find
empty-IsValid n = record { agree = λ x. refl; timed = λ x. refl; distinct = tt }

List-cases : (xs : List ℕ) → (xs ≡ []) ⊎ ((x : ℕ) × (rest : List ℕ) × (xs ≡ x ∷ rest))
List-cases [] = inl refl
List-cases (x ∷ rest) = inr (x, rest, refl)

-- An evicted front leaves a queue without the new ID, so that it can be appended.
evict-IsValid :
    (d : LltcDataIdQueue) (x time x0 : ℕ) (rest : List ℕ)
    → elem x d.set ≡ false
    → d.q ≡ x0 ∷ rest
    → IsValid d
    → IsValid (append (drop_front d x0 rest) x time)
evict-IsValid d x time x0 rest fresh e v =
    append-IsValid (drop_front d x0 rest) x time gone (drop_front-IsValid d x0 rest e v)
  where
    gone : elem x (drop_front d x0 rest).set ≡ false
    gone = unfold drop_front in ground (arith, elem-remove x0 x d.set)

-- The four ways of a push.
pub push_cases :
    (d : LltcDataIdQueue) (x time : ℕ)
    → ((elem x d.set ≡ true) × (push d x time ≡ some d))
      ⊎ ((elem x d.set ≡ false) × (length d.q ≢ d.n) × (push d x time ≡ some (append d x time)))
      ⊎ ((elem x d.set ≡ false)
          × (length d.q ≡ d.n)
          × ((x0 : ℕ) × (rest : List ℕ) × (d.q ≡ x0 ∷ rest)
              × (push d x time ≡ some (append (drop_front d x0 rest) x time))))
      ⊎ ((d.q ≡ []) × (d.n ≡ 0) × (push d x time ≡ none))
unfolding push
push_cases d x time = elim (Bool-cases (elem x d.set)) [
  | inl known ↦ inl (known, rw known)
  | inr fresh ↦ elim (Bool-cases (length d.q == d.n)) [
    | inr room ↦ inr (inl (fresh, ground arith, rw (fresh, room)))
    | inl full ↦ elim (List-cases d.q) [
      | inl e ↦ inr (inr (inr (e, ground arith, ground arith)))
      | inr (x0, rest, e) ↦ inr (inr (inl (fresh, ground arith, (x0, rest, e, ground arith))))
    ]
  ]
]

-- A push that does not fault keeps the queue, the set and the map in step, on every branch: a known
-- ID, room left, or an eviction.
pub push-IsValid :
    (d : LltcDataIdQueue) (x time : ℕ) {d' : LltcDataIdQueue}
    → push d x time ≡ some d'
    → IsValid d
    → IsValid d'
push-IsValid d x time r v = elim (push_cases d x time) [
  | inl (_, e) ↦ of_result IsValid e r v
  | inr (inl (fresh, _, e)) ↦ of_result IsValid e r (append-IsValid d x time fresh v)
  | inr (inr (inl (fresh, _, (x0, rest, q, e)))) ↦
      of_result IsValid e r (evict-IsValid d x time x0 rest fresh q v)
  | inr (inr (inr (_, _, e))) ↦ no_result e r
]

append-contains : (d : LltcDataIdQueue) (x time : ℕ) → contains (append d x time) x ≡ true
unfolding contains append
append-contains d x time = ground (arith, elem-insert x x d.set)

-- What was pushed is contained.
pub push-contains :
    (d : LltcDataIdQueue) (x time : ℕ) {d' : LltcDataIdQueue}
    → push d x time ≡ some d'
    → contains d' x ≡ true
unfolding contains
push-contains d x time r = elim (push_cases d x time) [
  | inl (known, e) ↦ of_result (λ q. contains q x ≡ true) e r known
  | inr (inl (_, _, e)) ↦ of_result (λ q. contains q x ≡ true) e r (append-contains d x time)
  | inr (inr (inl (_, _, (x0, rest, _, e)))) ↦
      of_result (λ q. contains q x ≡ true) e r (append-contains _ x time)
  | inr (inr (inr (_, _, e))) ↦ no_result e r
]
