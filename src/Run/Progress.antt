-- ===== src/Run/Progress.antt =====
-- A run comes to its end: no handler faults while the forwarding states are complete.
use drtp.Base.{
  ℕ, ◌+◌, ◌^◌, ◌≤◌, ◌<◌, ◌≡◌, refl, ◌⊎◌, inl, inr, true, Option, none, some, List, [], ◌∷◌, String,
  arith, ◌==◌, ◌>>=◌,
}
use drtp.Base.Seqs.{length, All}
use drtp.Messages.{Data}
use drtp.Fs.{
  ForwardingStateForRsg, ForwardingStateCollection, get_forwarding_state, extract_rsg_id, uint_max,
}
use drtp.State.Frame.{serves}
use drtp.State.{
  State, PitEntry, wait_for_next_capsule_delayed, wait_for_next_capsule_iterative,
  broadcast_request_m_recursive, wait_to_request_m,
}
use drtp.Forwarding.Progress.{CanBypass, Returns, both_return}
use drtp.Retrans.Arrivals.Once.{AtMostOnce, weaken}
use drtp.Retrans.Arrivals.Progress.{HasRoom}
use drtp.Dispatch.{extract_path_id, after_receive_data}
use drtp.Dispatch.Progress.{dispatch-Returns}
use drtp.Run.{
  Event, data_arrives, non_pit_data_arrives, timer_fires, run_task, handle, at_time, run,
}
use drtp.Run.Deliveries.{handle-AtMostOnce, at_time-AtMostOnce}

-- Every subgraph of the node has an entry for the path that bypasses a failure.
abbrev pub IsComplete : ForwardingStateCollection → Type 0
IsComplete coll =
    (rsg_id : ℕ) (fs : ForwardingStateForRsg)
    → get_forwarding_state coll rsg_id ≡ some fs
    → CanBypass coll rsg_id fs

-- The node has a subgraph of this number.
abbrev pub Knows : ForwardingStateCollection → ℕ → Type 0
Knows coll rsg_id = (fs : ForwardingStateForRsg) × (get_forwarding_state coll rsg_id ≡ some fs)

-- The subgraph of a message is known, or that of its prefix is looked for and not found.
abbrev pub IsAddressed : ForwardingStateCollection → Event → Type 0
IsAddressed coll (data_arrives pit face packet name) =
    ((extract_rsg_id coll packet.rsg_id_tag name == uint_max) ≡ true)
    ⊎ Knows coll (extract_rsg_id coll packet.rsg_id_tag name)
IsAddressed coll (non_pit_data_arrives face packet name) = Unit {0}
IsAddressed coll (timer_fires (wait_for_next_capsule_delayed id pit rsg_id check)) =
    Knows coll rsg_id
IsAddressed coll (timer_fires (wait_for_next_capsule_iterative id rrcp pit fe check)) = Unit {0}
IsAddressed coll (timer_fires (broadcast_request_m_recursive rbi rest find_closest pit rsg_id)) =
    Knows coll rsg_id
IsAddressed coll (timer_fires (wait_to_request_m event_id ids pit rsg_id)) = Knows coll rsg_id

bind_returns :
    (m : Option ForwardingStateForRsg) (f : ForwardingStateForRsg → Option State)
    (fs : ForwardingStateForRsg)
    → m ≡ some fs
    → Returns (f fs)
    → Returns (m >>= f)
bind_returns none f fs e r = absurd (let g : ⊥ = cc in g)
bind_returns (some gs) f fs e r = let g : gs ≡ fs = cc in rw g r

pub after_receive_data-Returns :
    (limit : ℕ) (pit : PitEntry) (face : ℕ) (packet : Data) (name : String) (σ : State)
    → HasRoom limit σ
    → serves σ.env.local_cs ≡ true
    → IsComplete σ.env.coll
    → IsAddressed σ.env.coll (data_arrives pit face packet name)
    → Returns (after_receive_data pit face packet name σ)
unfolding after_receive_data
after_receive_data-Returns limit pit face packet name σ room s h (inl drop) = (σ, rw drop refl)
after_receive_data-Returns limit pit face packet name σ room s h (inr (fs, known)) =
    both_return _ _ _ (σ, refl)
      (bind_returns _ _ fs known (
        dispatch-Returns limit packet.body packet pit face
          (extract_rsg_id σ.env.coll packet.rsg_id_tag name) (extract_path_id packet.path_id_tag fs)
          fs σ room s (h _ fs known)))

handle-Returns :
    (limit : ℕ) (ev : Event) (σ : State)
    → HasRoom limit σ
    → serves σ.env.local_cs ≡ true
    → IsComplete σ.env.coll
    → IsAddressed σ.env.coll ev
    → Returns (handle ev σ)
unfolding handle run_task
handle-Returns limit (data_arrives pit face packet name) σ room s h a =
    after_receive_data-Returns limit pit face packet name σ room s h a
handle-Returns limit (non_pit_data_arrives face packet name) σ room s h a = (_, refl)
handle-Returns limit (timer_fires (wait_for_next_capsule_delayed id pit rsg_id check)) σ room s h
      (fs, e) =
    bind_returns _ _ fs e (_, refl)
handle-Returns limit (timer_fires (wait_for_next_capsule_iterative id rrcp pit fe check)) σ room s h
      a =
    (_, refl)
handle-Returns limit (timer_fires (broadcast_request_m_recursive rbi rest find_closest pit rsg_id))
      σ room s h (fs, e) =
    bind_returns _ _ fs e (_, refl)
handle-Returns limit (timer_fires (wait_to_request_m event_id ids pit rsg_id)) σ room s h (fs, e) =
    bind_returns _ _ fs e (_, refl)

pub run-Returns :
    (coll : ForwardingStateCollection) (limit k n : ℕ) (evs : List (ℕ × Event)) (σ : State)
    → AtMostOnce (coll, true) limit k σ
    → k + length evs ≤ n
    → limit + n < 2 ^ 64
    → IsComplete coll
    → All (λ e. IsAddressed coll (e.1)) evs
    → (σ' : State) × (run evs σ ≡ some σ') × AtMostOnce (coll, true) limit n σ'
unfolding run
run-Returns coll limit k n [] σ v l h complete all = (σ, refl, weaken (omega arith) v)
run-Returns coll limit k n ((t, ev) ∷ evs) σ v l h complete (addressed, all) =
    let u = at_time-AtMostOnce t σ v in
    let room : HasRoom limit (at_time t σ) = (u.room, omega (arith, u.size)) in
    let (τ, handled) =
      handle-Returns limit ev (at_time t σ) room u.same_serving (rw u.same_coll complete)
        (rw u.same_coll addressed) in
    let v' = handle-AtMostOnce limit k ev (at_time t σ) u (omega arith) handled in
    let (σ', rest, w) = run-Returns coll limit (k + 1) n evs τ v' (omega arith) h complete all in
    (σ', rw handled rest, w)
