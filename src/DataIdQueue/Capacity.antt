-- ===== src/DataIdQueue/Capacity.antt =====
-- `LltcDataIdQueue` (lltc-common.cpp): the bound `n` moves with the queue, which is never full.
use drtp.Base.{
  ℕ, ◌+◌, ◌^◌, ◌≤◌, ◌<◌, ◌≡◌, refl, true, ◌||◌, Option, some, List, [], ◌∷◌, arith, ◌==◌, inl, inr,
  ap, Bool, map, ◌>>=◌,
}
use drtp.Base.Seqs.{elem, length, length-append, elem-insert}
use drtp.DataIdQueue.{LltcDataIdQueue, append, push, contains}
use drtp.DataIdQueue.Invariant.{push_cases}

-- The limit that `setLen` gave is what `n` exceeds the number of entries by.
abbrev pub Slack : ℕ → LltcDataIdQueue → Type 0
Slack limit d = (d.n ≡ limit + length d.q) × (0 < limit)

known_again :
    (d : LltcDataIdQueue) (x y : ℕ)
    → elem x d.set ≡ true
    → elem y d.set ≡ ((x == y) || elem y d.set)
known_again d x y h = ground (arith, ap {B = Bool} (λ (z : ℕ). elem z d.set))

appended :
    (limit : ℕ) (d : LltcDataIdQueue) (x time : ℕ)
    → Slack limit d
    → limit + length d.q + 1 < 2 ^ 64
    → Slack limit (append d x time)
unfolding append
appended limit d x time s h = omega (arith, length-append d.q (x ∷ []))

appended_contains :
    (d : LltcDataIdQueue) (x time y : ℕ) → contains (append d x time) y ≡ ((x == y) || contains d y)
unfolding append contains
appended_contains d x time y = elem-insert x y d.set

grown : (d : LltcDataIdQueue) (x time : ℕ) → length (append d x time).q ≤ length d.q + 1
unfolding append
grown d x time = omega (arith, length-append d.q (x ∷ []))

-- One push, from a queue with a positive limit: it succeeds and nothing leaves.
pub push-Slack :
    (limit : ℕ) (d : LltcDataIdQueue) (x time : ℕ)
    → Slack limit d
    → limit + length d.q + 1 < 2 ^ 64
    → (d' : LltcDataIdQueue) × (push d x time ≡ some d')
      × Slack limit d'
      × ((y : ℕ) → contains d' y ≡ ((x == y) || contains d y))
      × (length d'.q ≤ length d.q + 1)
unfolding contains elem
push-Slack limit d x time s h = elim (push_cases d x time) [
  | inl (known, e) ↦ (d, e, s, (λ y. known_again d x y known), omega arith)
  | inr (inl (fresh, _, e)) ↦
      (append d x time, e, appended limit d x time s h, appended_contains d x time, grown d x time)
  | inr (inr (inl (_, full, _))) ↦ absurd (omega arith)
  | inr (inr (inr (_, closed, _))) ↦ absurd (omega arith)
]

-- A run of pushes, each an ID and a time.
pub push_all : List (ℕ × ℕ) → LltcDataIdQueue → Option LltcDataIdQueue
push_all [] d = some d
push_all ((x, time) ∷ xs) d = push d x time >>= push_all xs

abbrev pub ids : List (ℕ × ℕ) → List ℕ
ids = map (λ e. e.0)

-- From a queue with a positive limit every run of pushes succeeds, all that was pushed or held is
-- contained at the end, and `n` has grown with the number of entries.
pub push_all-Slack :
    (xs : List (ℕ × ℕ)) (limit : ℕ) (d : LltcDataIdQueue)
    → Slack limit d
    → limit + length d.q + length xs < 2 ^ 64
    → (d' : LltcDataIdQueue) × (push_all xs d ≡ some d')
      × Slack limit d'
      × ((y : ℕ) → contains d' y ≡ (elem y (ids xs) || contains d y))
unfolding push_all elem
push_all-Slack [] limit d s h = (d, refl, s, (λ y. refl))
push_all-Slack ((x, time) ∷ xs) limit d s h =
    let (d1, e1, s1, c1, l1) = push-Slack limit d x time s (omega arith) in
    let (d2, e2, s2, c2) = push_all-Slack xs limit d1 s1 (omega arith) in
    (d2, rw e1 e2, s2, (λ y. ground (arith, c1 y, c2 y)))
