-- ===== src/Retrans/Events/Recording.antt =====
-- `checkAndRecordRetransmittedDataId` of lltc-strategy-service-sublayer-retrans-control.cpp.
use drtp.Base.{
  ℕ, ◌+◌, ◌^◌, ◌≤◌, ◌<◌, ◌≡◌, refl, ap, Bool, true, false, ◌||◌, ◌⊎◌, inl, inr, some, arith, ◌==◌,
  not, Bool-cases, >>=-eq-some,
}
use drtp.Base.Seqs.{length}
use drtp.DataIdQueue.{LltcDataIdQueue, contains, push}
use drtp.DataIdQueue.Invariant.{push-contains}
use drtp.DataIdQueue.Capacity.{Slack, push-Slack}
use drtp.State.{State}
use drtp.State.Ops.{with_transmitted}
use drtp.Retrans.Events.{check_and_record_retransmitted_data_id}

-- The two ways of a check that does not fault.
pub check_and_record_cases :
    (id : ℕ) (σ : State) {b : Bool} {σ' : State}
    → check_and_record_retransmitted_data_id id σ ≡ some (b, σ')
    → ((b ≡ false) × (σ' ≡ σ) × (contains σ.ds.transmitted_data_ids id ≡ true))
      ⊎ ((d : LltcDataIdQueue) × (b ≡ true)
          × (σ' ≡ with_transmitted d σ)
          × (contains σ.ds.transmitted_data_ids id ≡ false)
          × (push σ.ds.transmitted_data_ids id σ.env.now ≡ some d))
unfolding check_and_record_retransmitted_data_id
check_and_record_cases id σ {b} {σ'} e = elim (Bool-cases (contains σ.ds.transmitted_data_ids id)) [
  | inl known ↦ inl (cc (rw known at e), cc (rw known at e), known)
  | inr fresh ↦
      let (d, p, f) =
        >>=-eq-some (push σ.ds.transmitted_data_ids id σ.env.now)
          (λ q. some (true, with_transmitted q σ)) (rw fresh at e) in
      inr (d, cc f, cc f, fresh, p)
]

-- An ID is new once: whatever the state was, a second check of the same ID, on the state that the
-- first one left, says that it is not new and changes nothing.
pub check_and_record_twice :
    (id : ℕ) (σ : State) {b : Bool} {σ' : State}
    → check_and_record_retransmitted_data_id id σ ≡ some (b, σ')
    → check_and_record_retransmitted_data_id id σ' ≡ some (false, σ')
unfolding check_and_record_retransmitted_data_id
check_and_record_twice id σ {b} {σ'} e = rw (recorded (check_and_record_cases id σ e)) refl
  where
    recorded :
        ((b ≡ false) × (σ' ≡ σ) × (contains σ.ds.transmitted_data_ids id ≡ true))
          ⊎ ((d : LltcDataIdQueue) × (b ≡ true)
              × (σ' ≡ with_transmitted d σ)
              × (contains σ.ds.transmitted_data_ids id ≡ false)
              × (push σ.ds.transmitted_data_ids id σ.env.now ≡ some d))
        → contains σ'.ds.transmitted_data_ids id ≡ true
    recorded (inl (_, same, known)) = rw same known
    recorded (inr (d, _, pushed, _, p)) =
        rw pushed
          (unfold with_transmitted in push-contains σ.ds.transmitted_data_ids id σ.env.now p)

-- With room in the queue a check never faults, and records exactly the ID.
pub check_and_record_total :
    (limit id : ℕ) (σ : State)
    → Slack limit σ.ds.transmitted_data_ids
    → limit + length σ.ds.transmitted_data_ids.q + 1 < 2 ^ 64
    → (d : LltcDataIdQueue) × (check_and_record_retransmitted_data_id id σ
        ≡ some (not (contains σ.ds.transmitted_data_ids id), with_transmitted d σ))
      × Slack limit d
      × ((y : ℕ) → contains d y ≡ ((id == y) || contains σ.ds.transmitted_data_ids y))
      × (length d.q ≤ length σ.ds.transmitted_data_ids.q + 1)
unfolding check_and_record_retransmitted_data_id
check_and_record_total limit id σ s h = elim (Bool-cases (contains σ.ds.transmitted_data_ids id)) [
  | inl known ↦ (
    σ.ds.transmitted_data_ids,
    rw (known) (unfold with_transmitted in refl),
    s,
    (λ y. again y known),
    omega arith,
  )
  | inr fresh ↦
      let (d, p, s', c, l) = push-Slack limit σ.ds.transmitted_data_ids id σ.env.now s h in
      (d, rw (fresh, p), s', c, l)
]
  where
    again :
        (y : ℕ)
        → contains σ.ds.transmitted_data_ids id ≡ true
        → contains σ.ds.transmitted_data_ids y ≡ ((id == y) || contains σ.ds.transmitted_data_ids y)
    again y known = ground (arith, ap {B = Bool} (λ (z : ℕ). contains σ.ds.transmitted_data_ids z))
