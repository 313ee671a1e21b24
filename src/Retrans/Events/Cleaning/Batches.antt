-- ===== src/Retrans/Events/Cleaning/Batches.antt =====
-- `cleanRetranMEvents(ds, retransDataId)` of lltc-strategy-service-sublayer-retrans-control.cpp.
use drtp.Base.{
  ℕ, ◌≡◌, refl, ◌∙◌, ap, Bool, true, false, inl, inr, Option, none, some, List, [], ◌∷◌, arith,
  ◌==◌, Bool-cases, map, if◌then◌else◌,
}
use drtp.Base.Seqs.{elem, length, Distinct, remove_first}
use drtp.Base.Maps.{find}
use drtp.State.{State, Call, RetransInMultipleEvent, remove_event}
use drtp.State.Ops.{call, with_batch}
use drtp.Retrans.Events.{clean_retran_m_events, drop_empty, without_id, remove_empty}

-- The batches: no number stands twice, and no list holds an ID twice.
abbrev pub DistinctBatches : List (ℕ × RetransInMultipleEvent) → Type 0
DistinctBatches [] = Unit {0}
DistinctBatches ((k, rbe) ∷ m) =
    (find k m ≡ none) × Distinct rbe.retrans_data_ids × DistinctBatches m

-- All IDs but one.
unfoldable pub others : ℕ → List ℕ → List ℕ
others id [] = []
others id (x ∷ xs) = let rest = others id xs in if x == id then rest else x ∷ rest

-- A batch that asks for the other IDs, if there are any.
unfoldable pub left_of : ℕ → RetransInMultipleEvent → Option RetransInMultipleEvent
left_of id rbe =
    if length (others id rbe.retrans_data_ids) == 0
    then none
    else some (record rbe { retrans_data_ids = others id rbe.retrans_data_ids })

unfoldable pub left : ℕ → Option RetransInMultipleEvent → Option RetransInMultipleEvent
unfolding left_of
left id none = none
left id (some rbe) = left_of id rbe

-- The removals of the tasks of the batches that ask for no other ID.
unfoldable pub emptied : ℕ → List (ℕ × RetransInMultipleEvent) → List Call → List Call
emptied id [] calls = calls
emptied id ((k, rbe) ∷ m) calls =
    emptied id m
      (if length (others id rbe.retrans_data_ids) == 0 then remove_event rbe.e ∷ calls else calls)

others_absent : (id : ℕ) (xs : List ℕ) → elem id xs ≡ false → others id xs ≡ xs
unfolding others elem
others_absent id [] h = refl
others_absent id (x ∷ xs) h = ground (arith, others_absent id xs)

remove_first-others : (id : ℕ) (xs : List ℕ) → Distinct xs → remove_first id xs ≡ others id xs
unfolding others remove_first
remove_first-others id [] d = refl
remove_first-others id (x ∷ xs) d = elim (Bool-cases (x == id)) [
  | inl e ↦
      let x≡id : x ≡ id = ground (arith, e) in ground (arith, x≡id, e, d.0, others_absent id xs)
  | inr e ↦ ground (arith, e, remove_first-others id xs d.1)
]

absent :
    (id k : ℕ) (m : List (ℕ × RetransInMultipleEvent))
    → find k m ≡ none
    → find k (drop_empty (map (without_id id) m)) ≡ none
unfolding find drop_empty without_id
absent id k [] h = refl
absent id k ((j, rbe) ∷ m) h = ground (arith, absent id k m)

find-drop_empty :
    (id k : ℕ) (m : List (ℕ × RetransInMultipleEvent))
    → DistinctBatches m
    → find k (drop_empty (map (without_id id) m)) ≡ left id (find k m)
unfolding find drop_empty without_id left left_of
find-drop_empty id k [] d = refl
find-drop_empty id k ((j, rbe) ∷ m) (fresh, distinct, d) =
    rw (remove_first-others id rbe.retrans_data_ids distinct)
      (ground (arith, find-drop_empty id k m d, absent id j m fresh))

call_if :
    (b : Bool) (c : Call) (σ : State)
    → (if b then call c σ else σ).env.calls ≡ (if b then c ∷ σ.env.calls else σ.env.calls)
unfolding call
call_if true c σ = refl
call_if false c σ = refl

remove_empty_lem :
    (id : ℕ) (m : List (ℕ × RetransInMultipleEvent)) (σ : State)
    → DistinctBatches m
    → (remove_empty (map (without_id id) m) σ).env.calls ≡ emptied id m σ.env.calls
unfolding remove_empty without_id emptied
remove_empty_lem id [] σ d = refl
remove_empty_lem id ((j, rbe) ∷ m) σ (fresh, distinct, d) =
    let none_left = length (others id rbe.retrans_data_ids) == 0 in
    rw (remove_first-others id rbe.retrans_data_ids distinct) (
      remove_empty_lem id m (if none_left then call (remove_event rbe.e) σ else σ) d
      ∙ ap (emptied id m) (call_if none_left (remove_event rbe.e) σ))

-- `cleanRetranMEvents` for an ID, on batches whose numbers are distinct and that hold no ID twice: each
-- batch keeps its other IDs, in their order, its task and its time; the batches with no other ID are
-- dropped, and their tasks are removed from the simulator; nothing else is called.
pub clean_retran_m_events_lem :
    (id k : ℕ) (σ : State)
    → DistinctBatches σ.ds.retrans_in_batch_events
    → (find k (clean_retran_m_events id σ).ds.retrans_in_batch_events
        ≡ left id (find k σ.ds.retrans_in_batch_events))
      × ((clean_retran_m_events id σ).env.calls
          ≡ emptied id σ.ds.retrans_in_batch_events σ.env.calls)
unfolding clean_retran_m_events with_batch
clean_retran_m_events_lem id k σ d = (
  find-drop_empty id k σ.ds.retrans_in_batch_events d,
  remove_empty_lem id σ.ds.retrans_in_batch_events σ d,
)
