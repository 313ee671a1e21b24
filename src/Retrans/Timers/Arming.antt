-- ===== src/Retrans/Timers/Arming.antt =====
-- How `waitForNextCapsule` (lltc-strategy-service-sublayer-retrans-control.cpp) arms its timer.
use drtp.Base.{
  ℕ, ◌≡◌, refl, inl, inr, Bool, true, false, ◌∷◌, some, arith, ◌==◌, Bool-cases, if◌then◌else◌,
}
use drtp.Base.Int.{clamp}
use drtp.Base.Maps.{find, has_key, find-assign}
use drtp.Fs.{ForwardingStateForRsg}
use drtp.State.{State, PitEntry, RetransInSingleEvent, schedule, wait_for_next_capsule_delayed}
use drtp.State.Ops.{schedule_task, with_waiting}
use drtp.Retrans.Timers.{wait_for_next_capsule}

fresh_event : State → RetransInSingleEvent
fresh_event τ = record { e = some τ.env.scheduled; req_time = 0 }

waits :
    (next : ℕ) (pit : PitEntry) (skipped rsg_id : ℕ) (fs : ForwardingStateForRsg) (penalty : ℕ)
    (σ : State)
    → has_key next
        (wait_for_next_capsule next pit skipped rsg_id fs penalty σ).ds.wait_for_next_data_events
      ≡ true
unfolding wait_for_next_capsule with_waiting schedule_task fresh_event
waits next pit skipped rsg_id fs penalty σ =
    elim (Bool-cases (has_key next σ.ds.wait_for_next_data_events)) [
      | inl e ↦ simp e refl
      | inr e ↦
          simp e
            (ground (arith, find-assign next next (fresh_event σ) σ.ds.wait_for_next_data_events))
    ]

module _ (next : ℕ) (pit : PitEntry) (skipped rsg_id : ℕ) (fs : ForwardingStateForRsg) (penalty : ℕ)
    (σ : State) where
  abbrev waiting : State
  waiting = wait_for_next_capsule next pit skipped rsg_id fs penalty σ

  -- The task is scheduled after the time computed, and its event stands in the table.
  abbrev pub Armed : Type 0
  Armed =
      (waiting.env.calls
        ≡ schedule
            (clamp (σ.env.config.waiting_time skipped fs.waiting_timeout_on_next_packet penalty))
            (wait_for_next_capsule_delayed next pit rsg_id true)
          ∷ σ.env.calls)
      × ((k : ℕ)
          → find k waiting.ds.wait_for_next_data_events ≡ (
              if next == k
              then some (record { e = some σ.env.scheduled; req_time = 0 })
              else find k σ.ds.wait_for_next_data_events))

  armed : has_key next σ.ds.wait_for_next_data_events ≡ false → Armed
  unfolding wait_for_next_capsule with_waiting schedule_task
  armed e = simp e (
    refl,
    λ k.
        find-assign next k (record { e = some σ.env.scheduled; req_time = 0 })
          σ.ds.wait_for_next_data_events,
  )

  already : has_key next σ.ds.wait_for_next_data_events ≡ true → waiting ≡ σ
  unfolding wait_for_next_capsule
  already e = simp e refl

  known : (b : Bool) (τ υ : State) → b ≡ true → (if b then τ else υ) ≡ τ
  known true τ υ h = refl
  known false τ υ h = absurd (let f : ⊥ = cc in f)

  -- One task waits for an ID. If none waits yet, `waitForNextCapsule` schedules one, after the waiting
  -- time of the configuration, and enters its event, and the events of the other IDs are as they were;
  -- if one waits already, it changes nothing; and so a second call for the same ID changes nothing,
  -- whatever its other arguments.
  pub wait_for_next_capsule_once :
      (pit' : PitEntry) (skipped' rsg_id' : ℕ) (fs' : ForwardingStateForRsg) (penalty' : ℕ)
      → (has_key next σ.ds.wait_for_next_data_events ≡ false → Armed)
        × (has_key next σ.ds.wait_for_next_data_events ≡ true → waiting ≡ σ)
        × (wait_for_next_capsule next pit' skipped' rsg_id' fs' penalty' waiting ≡ waiting)
  unfolding wait_for_next_capsule
  wait_for_next_capsule_once pit' skipped' rsg_id' fs' penalty' = (
    armed,
    already,
    known (has_key next waiting.ds.wait_for_next_data_events) _ _
        (waits next pit skipped rsg_id fs penalty σ),
  )
