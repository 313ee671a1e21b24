-- ===== src/Retrans/Arrivals/Duplicates.antt =====
-- A capsule that was handled is recorded as passed on: `onReceiveCapsule`
-- (lltc-strategy-service-sublayer-forwarding.cpp).
use drtp.Base.{
  ℕ, ◌≡◌, refl, Bool, true, false, inl, inr, Option, some, List, ◌>>=◌, >>=-eq-some, if◌then◌else◌,
  of_result,
}
use drtp.DataIdQueue.{contains}
use drtp.DataIdQueue.Invariant.{push-contains}
use drtp.Messages.{Data, capsule}
use drtp.Fs.{ForwardingStateForRsg}
use drtp.State.{State, PitEntry}
use drtp.State.Ops.{with_transmitted}
use drtp.State.Frame.{Delivers}
use drtp.Retrans.Events.{check_and_record_retransmitted_data_id}
use drtp.Retrans.Events.Recording.{check_and_record_cases}
use drtp.Retrans.Arrivals.{accept_capsule, on_receive_capsule}
use drtp.Retrans.Arrivals.Effects.{accept_capsule-Delivers}

-- What the handlers leave once they went through the check.
checked_contains :
    (id : ℕ) (σ : State) (accept : State → Option State) {σ' : State}
    → ((τ υ : State) → accept τ ≡ some υ → Delivers id τ υ)
    → (check_and_record_retransmitted_data_id id σ >>= λ r.
        if r.0 then accept (r.1) else some (r.1))
      ≡ some σ'
    → contains σ'.ds.transmitted_data_ids id ≡ true
checked_contains id σ accept {σ'} delivers e =
    let ((b, σ1), checked, rest) =
      >>=-eq-some (check_and_record_retransmitted_data_id id σ)
        (λ r. if r.0 then accept (r.1) else some (r.1)) e in
    elim (check_and_record_cases id σ checked) [
      | inl (old, same, known) ↦
          of_result (λ τ. contains τ.ds.transmitted_data_ids id ≡ true) refl
            (rw (old, same) at rest) known
      | inr (d, new, pushed, fresh, p) ↦
          let del = delivers (with_transmitted d σ) σ' (rw (new, pushed) at rest) in
          rw del.transmitted
            (unfold with_transmitted in push-contains σ.ds.transmitted_data_ids id σ.env.now p)
    ]

enabled_contains :
    (b : Bool) (m m' : Option State) {σ' : State}
    → b ≡ false
    → (if b then m else m') ≡ some σ'
    → m' ≡ some σ'
enabled_contains true m m' h e = absurd (let f : ⊥ = cc in f)
enabled_contains false m m' h e = e

-- A Capsule that was handled, while retransmission is on, is recorded as passed on.
pub on_receive_capsule-contains :
    (packet : Data) (id : ℕ) (content : List ℕ) (pit : PitEntry) (rsg_id : ℕ)
    (fs : ForwardingStateForRsg) (σ : State) {σ' : State}
    → packet.body ≡ capsule id content
    → σ.env.config.disable_retran ≡ false
    → on_receive_capsule packet id content pit rsg_id fs σ ≡ some σ'
    → contains σ'.ds.transmitted_data_ids id ≡ true
unfolding on_receive_capsule
on_receive_capsule-contains packet id content pit rsg_id fs σ b on e =
    checked_contains id σ (accept_capsule packet id content pit rsg_id fs)
      (λ τ υ. accept_capsule-Delivers packet id content pit rsg_id fs τ b)
      (enabled_contains σ.env.config.disable_retran _ _ on e)
