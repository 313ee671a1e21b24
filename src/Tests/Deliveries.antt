-- ===== src/Tests/Deliveries.antt =====
-- The delivery of capsules on the node of the tests.
use drtp.Base.{ℕ, ◌≤◌, ◌≡◌, refl, Option, none, some, List, [], ◌∷◌, inr, arith, false, true}
use drtp.Base.Seqs.{All}
use drtp.DataIdQueue.{contains}
use drtp.State.{State, wait_for_next_capsule_delayed}
use drtp.State.Frame.{Frame, delivered}
use drtp.Forwarding.Progress.{CanBypass, Returns}
use drtp.Retrans.Arrivals.{accept_capsule, on_receive_capsule}
use drtp.Retrans.Arrivals.Once.{AtMostOnce}
use drtp.Retrans.Arrivals.Progress.{HasRoom, accept_capsule-Returns, on_receive_capsule-Returns}
use drtp.Retrans.Arrivals.Duplicates.{on_receive_capsule-contains}
use drtp.Retrans.Arrivals.Last.{accept_capsule-last}
use drtp.Dispatch.{after_receive_data}
use drtp.Dispatch.Routing.{after_receive_data-AtMostOnce}
use drtp.Run.{Event, data_arrives, timer_fires, run}
use drtp.Run.Deliveries.{run_delivers_once, start-AtMostOnce}
use drtp.Run.Progress.{run-Returns, IsAddressed, IsComplete, after_receive_data-Returns}
use drtp.Tests.{program, topic, pit, env, node, capsule_of, coll, subgraph}

-- Capsule 1, capsule 3 out of order, capsule 1 again, the timer of capsule 2 and capsule 2.
abbrev events : List (ℕ × Event)
events =
    (10, data_arrives pit 4 (capsule_of 1) topic)
    ∷ (20, data_arrives pit 4 (capsule_of 3) topic)
    ∷ (25, data_arrives pit 4 (capsule_of 1) topic)
    ∷ (30, timer_fires (wait_for_next_capsule_delayed 2 pit 3 true))
    ∷ (40, data_arrives pit 4 (capsule_of 2) topic)
    ∷ []

abbrev or_start : Option State → State
or_start none = node
or_start (some σ) = σ

abbrev final : State
final = or_start (run events node)

all_delivered : (delivered 1 final ≡ 1) × (delivered 2 final ≡ 1) × (delivered 3 final ≡ 1)
unfolding program
all_delivered = (refl, refl, refl)

-- The only subgraph is not bypassed.
complete : IsComplete coll
unfolding program
complete rsg_id fs e bypassed = absurd (let f : ⊥ = ground arith in f)

-- The subgraph of every event is known.
addressed : All (λ e. IsAddressed coll (e.1)) events
unfolding program
addressed = (
  inr (subgraph, refl),
  (inr (subgraph, refl), (inr (subgraph, refl), ((subgraph, refl), (inr (subgraph, refl), tt)))),
)

started : AtMostOnce (coll, true) 10 0 node
unfolding program
started = start-AtMostOnce topic env (omega arith) refl refl

ran : (σ' : State) × (run events node ≡ some σ')
ran =
    let (σ', e, v) =
      run-Returns coll 10 0 5 events node started (omega arith) (omega arith) complete addressed in
    (σ', e)

run_delivers_once_example :
    (delivered 1 (ran.0) ≤ 1)
    × (contains (ran.0).ds.transmitted_data_ids 1 ≡ false → delivered 1 (ran.0) ≡ 0)
run_delivers_once_example =
    run_delivers_once topic env events 1 (omega arith) refl refl (omega arith) (ran.1)

no_bypass : CanBypass coll 3 subgraph
no_bypass = complete 3 subgraph (unfold program in refl)

room : HasRoom 10 node
room = (started.room, omega (arith, started.size))

-- Capsule 1 on a new node, and the state that it leaves.
first : Returns (on_receive_capsule (capsule_of 1) 1 (1 ∷ []) pit 3 subgraph node)
first =
    on_receive_capsule-Returns 10 (capsule_of 1) 1 (1 ∷ []) pit 3 subgraph node room
      (unfold program in no_bypass)

on_receive_capsule-contains_example : contains (first.0).ds.transmitted_data_ids 1 ≡ true
on_receive_capsule-contains_example =
    on_receive_capsule-contains (capsule_of 1) 1 (1 ∷ []) pit 3 subgraph node refl
      (unfold program in refl) (first.1)

accepted : Returns (accept_capsule (capsule_of 5) 5 (5 ∷ []) pit 3 subgraph node)
accepted =
    accept_capsule-Returns (capsule_of 5) 5 (5 ∷ []) pit 3 subgraph node
      (unfold program in no_bypass)

accept_capsule-last_example : (accepted.0).ds.last_data_id ≡ 5
unfolding program
accept_capsule-last_example =
    accept_capsule-last (capsule_of 5) 5 (5 ∷ []) pit 3 subgraph node (accepted.1)

handled : Returns (after_receive_data pit 4 (capsule_of 1) topic node)
handled =
    after_receive_data-Returns 10 pit 4 (capsule_of 1) topic node room (unfold program in refl)
      (unfold program in complete) (inr (subgraph, unfold program in refl))

after_receive_data-AtMostOnce_example : AtMostOnce (coll, true) 10 1 (handled.0)
after_receive_data-AtMostOnce_example =
    after_receive_data-AtMostOnce 10 0 pit 4 (capsule_of 1) topic node started (omega arith)
      (handled.1)
