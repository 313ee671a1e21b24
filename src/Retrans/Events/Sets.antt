-- ===== src/Retrans/Events/Sets.antt =====
-- `addToSet` and `setMinus` of lltc-strategy-service-sublayer-retrans-control.cpp.
use drtp.Base.{ℕ, ◌≡◌, refl, ap, Bool, ◌&&◌, ◌||◌, not, List, [], ◌∷◌, arith, if◌then◌else◌}
use drtp.Base.Seqs.{elem, insert, elem-insert}
use drtp.Retrans.Events.{add_to_set, minus_onto, set_minus}

pub elem-add_to_set :
    (x : ℕ) (ids set : List ℕ) → elem x (add_to_set ids set) ≡ (elem x ids || elem x set)
unfolding add_to_set elem
elem-add_to_set x [] set = refl
elem-add_to_set x (id ∷ ids) set =
    ground (arith, elem-add_to_set x ids (insert id set), elem-insert id x set)

elem-minus_onto :
    (x : ℕ) (ids set rest : List ℕ)
    → elem x (minus_onto ids set rest) ≡ ((elem x ids && not (elem x set)) || elem x rest)
unfolding minus_onto elem
elem-minus_onto x [] set rest = refl
elem-minus_onto x (id ∷ ids) set rest = ground (
  arith,
  elem-minus_onto x ids set (if elem id set then rest else insert id rest),
  elem-insert id x rest,
  ap {B = Bool} (λ (z : ℕ). elem z set),
)

-- `addToSet` makes the union and `setMinus` the difference of two sets of IDs.
pub set_operations :
    (x : ℕ) (ids set : List ℕ)
    → (elem x (add_to_set ids set) ≡ (elem x ids || elem x set))
      × (elem x (set_minus ids set) ≡ (elem x ids && not (elem x set)))
unfolding set_minus elem
set_operations x ids set = (elem-add_to_set x ids set, ground (arith, elem-minus_onto x ids set []))
