-- ===== src/State/Frame.antt =====
-- What an operation of the strategy leaves alone: the IDs that were passed on, the last ID, the
-- configuration, and the number of capsules handed to `sendData`. (State of lltc-strategy.hpp.)
use drtp.Base.{
  ℕ, ◌+◌, ◌≤◌, if◌then◌else◌, ◌≡◌, refl, ◌∙◌, Bool, true, false, ◌&&◌, not, Option, List, arith,
  ◌==◌,
}
use drtp.Base.Seqs.{tally}
use drtp.Messages.{Data, Body, capsule}
use drtp.State.{
  State, Call, Task, Cs, RetransInSingleEvent, RetransInMultipleEvent, WaitForRetransInBatchEvent,
  remove_event, send_data,
}
use drtp.State.Ops.{
  call, schedule_task, send_lltc_non_pit_data, with_lost, with_waiting, with_single, with_batch,
  with_batch_waits, with_id_sets, with_draws, with_cs, with_batch_id, with_batch_wait_id,
  with_report_uids, with_last_data_id,
}

-- `sendData` of the capsule with the ID.
unfoldable pub is_capsule : ℕ → Body → Bool
is_capsule id (capsule x content) = x == id
is_capsule id body = false

unfoldable pub is_delivery : ℕ → Call → Bool
unfolding is_capsule
is_delivery id (send_data d face) = is_capsule id d.body
is_delivery id c = false

-- How often the capsule was handed to `sendData`.
unfoldable pub delivered : ℕ → State → ℕ
unfolding is_delivery tally
delivered id σ = tally (is_delivery id) σ.env.calls

-- Whether the content store serves what it holds.
unfoldable pub serves : Cs → Bool
serves cs = cs.should_serve && not (cs.limit == 0)

pub record Frame (σ σ' : State) : Type 0 where
  pub transmitted : σ'.ds.transmitted_data_ids ≡ σ.ds.transmitted_data_ids
  pub last : σ'.ds.last_data_id ≡ σ.ds.last_data_id
  pub uids : σ'.ds.recent_data_retrans_report_uids ≡ σ.ds.recent_data_retrans_report_uids
  pub coll : σ'.env.coll ≡ σ.env.coll
  pub config : σ'.env.config ≡ σ.env.config
  pub serving : serves σ'.env.local_cs ≡ serves σ.env.local_cs
  pub now : σ'.env.now ≡ σ.env.now
  pub deliveries : (id : ℕ) → delivered id σ' ≡ delivered id σ

pub Frame-refl : (σ : State) → Frame σ σ
Frame-refl σ = record {
  transmitted = refl;
  last = refl;
  uids = refl;
  coll = refl;
  config = refl;
  serving = refl;
  now = refl;
  deliveries = λ id. refl;
}

pub Frame-trans : {σ τ υ : State} → Frame σ τ → Frame τ υ → Frame σ υ
Frame-trans f g = record {
  transmitted = g.transmitted ∙ f.transmitted;
  last = g.last ∙ f.last;
  uids = g.uids ∙ f.uids;
  coll = g.coll ∙ f.coll;
  config = g.config ∙ f.config;
  serving = g.serving ∙ f.serving;
  now = g.now ∙ f.now;
  deliveries = λ id. g.deliveries id ∙ f.deliveries id;
}

pub if-Frame : (b : Bool) (σ τ : State) → Frame σ τ → Frame σ (if b then τ else σ)
if-Frame true σ τ f = f
if-Frame false σ τ f = Frame-refl σ

Frame-of_calls :
    (σ σ' : State)
    → σ'.ds.transmitted_data_ids ≡ σ.ds.transmitted_data_ids
    → σ'.ds.last_data_id ≡ σ.ds.last_data_id
    → σ'.ds.recent_data_retrans_report_uids ≡ σ.ds.recent_data_retrans_report_uids
    → σ'.env.coll ≡ σ.env.coll
    → σ'.env.config ≡ σ.env.config
    → serves σ'.env.local_cs ≡ serves σ.env.local_cs
    → σ'.env.now ≡ σ.env.now
    → ((id : ℕ) → delivered id σ' ≡ delivered id σ)
    → Frame σ σ'
Frame-of_calls σ σ' t l u o c v n d = record {
  transmitted = t;
  last = l;
  uids = u;
  coll = o;
  config = c;
  serving = v;
  now = n;
  deliveries = d;
}

-- A call that is no delivery.
pub call-Frame : (c : Call) (σ : State) → ((id : ℕ) → is_delivery id c ≡ false) → Frame σ (call c σ)
unfolding call delivered
call-Frame c σ h =
    Frame-of_calls σ (call c σ) refl refl refl refl refl refl refl (λ id. ground (arith, h id))

pub schedule_task-Frame :
    (delay : ℕ) (task : Task) (σ : State) → Frame σ (schedule_task delay task σ)
unfolding schedule_task delivered
schedule_task-Frame delay task σ =
    Frame-of_calls σ (schedule_task delay task σ) refl refl refl refl refl refl refl (λ id. refl)

pub send_lltc_non_pit_data-Frame :
    (packet : Data) (face rsg_id path_id : ℕ) (σ : State)
    → Frame σ (send_lltc_non_pit_data packet face rsg_id path_id σ)
unfolding send_lltc_non_pit_data is_delivery
send_lltc_non_pit_data-Frame packet face rsg_id path_id σ = call-Frame _ σ (λ id. refl)

pub remove_event-Frame : (e : Option ℕ) (σ : State) → Frame σ (call (remove_event e) σ)
unfolding is_delivery
remove_event-Frame e σ = call-Frame (remove_event e) σ (λ id. refl)

pub with_lost-Frame : (xs : List ℕ) (σ : State) → Frame σ (with_lost xs σ)
unfolding with_lost delivered
with_lost-Frame xs σ =
    Frame-of_calls σ (with_lost xs σ) refl refl refl refl refl refl refl (λ id. refl)

pub with_waiting-Frame :
    (m : List (ℕ × RetransInSingleEvent)) (σ : State) → Frame σ (with_waiting m σ)
unfolding with_waiting delivered
with_waiting-Frame m σ =
    Frame-of_calls σ (with_waiting m σ) refl refl refl refl refl refl refl (λ id. refl)

pub with_single-Frame :
    (m : List (ℕ × RetransInSingleEvent)) (σ : State) → Frame σ (with_single m σ)
unfolding with_single delivered
with_single-Frame m σ =
    Frame-of_calls σ (with_single m σ) refl refl refl refl refl refl refl (λ id. refl)

pub with_batch-Frame :
    (m : List (ℕ × RetransInMultipleEvent)) (σ : State) → Frame σ (with_batch m σ)
unfolding with_batch delivered
with_batch-Frame m σ =
    Frame-of_calls σ (with_batch m σ) refl refl refl refl refl refl refl (λ id. refl)

pub with_batch_waits-Frame :
    (es : List WaitForRetransInBatchEvent) (σ : State) → Frame σ (with_batch_waits es σ)
unfolding with_batch_waits delivered
with_batch_waits-Frame es σ =
    Frame-of_calls σ (with_batch_waits es σ) refl refl refl refl refl refl refl (λ id. refl)

pub with_id_sets-Frame : (m : List (ℕ × List ℕ)) (σ : State) → Frame σ (with_id_sets m σ)
unfolding with_id_sets delivered
with_id_sets-Frame m σ =
    Frame-of_calls σ (with_id_sets m σ) refl refl refl refl refl refl refl (λ id. refl)

pub with_draws-Frame : (n : ℕ) (σ : State) → Frame σ (with_draws n σ)
unfolding with_draws delivered
with_draws-Frame n σ =
    Frame-of_calls σ (with_draws n σ) refl refl refl refl refl refl refl (λ id. refl)

pub with_cs-Frame :
    (cs : Cs) (σ : State) → serves cs ≡ serves σ.env.local_cs → Frame σ (with_cs cs σ)
unfolding with_cs delivered
with_cs-Frame cs σ e = Frame-of_calls σ (with_cs cs σ) refl refl refl refl refl e refl (λ id. refl)

pub with_batch_id-Frame : (n : ℕ) (σ : State) → Frame σ (with_batch_id n σ)
unfolding with_batch_id delivered
with_batch_id-Frame n σ =
    Frame-of_calls σ (with_batch_id n σ) refl refl refl refl refl refl refl (λ id. refl)

pub with_batch_wait_id-Frame : (n : ℕ) (σ : State) → Frame σ (with_batch_wait_id n σ)
unfolding with_batch_wait_id delivered
with_batch_wait_id-Frame n σ =
    Frame-of_calls σ (with_batch_wait_id n σ) refl refl refl refl refl refl refl (λ id. refl)

-- As `Frame`, for operations that may set the last ID.
pub record Quiet (σ σ' : State) : Type 0 where
  pub transmitted : σ'.ds.transmitted_data_ids ≡ σ.ds.transmitted_data_ids
  pub coll : σ'.env.coll ≡ σ.env.coll
  pub config : σ'.env.config ≡ σ.env.config
  pub serving : serves σ'.env.local_cs ≡ serves σ.env.local_cs
  pub deliveries : (id : ℕ) → delivered id σ' ≡ delivered id σ

pub quiet : {σ σ' : State} → Frame σ σ' → Quiet σ σ'
quiet f = record {
  transmitted = f.transmitted;
  coll = f.coll;
  config = f.config;
  serving = f.serving;
  deliveries = f.deliveries;
}

pub Quiet-trans : {σ τ υ : State} → Quiet σ τ → Quiet τ υ → Quiet σ υ
Quiet-trans f g = record {
  transmitted = g.transmitted ∙ f.transmitted;
  coll = g.coll ∙ f.coll;
  config = g.config ∙ f.config;
  serving = g.serving ∙ f.serving;
  deliveries = λ id. g.deliveries id ∙ f.deliveries id;
}

pub with_last_data_id-Quiet : (n : ℕ) (σ : State) → Quiet σ (with_last_data_id n σ)
unfolding with_last_data_id delivered
with_last_data_id-Quiet n σ = record {
  transmitted = refl;
  coll = refl;
  config = refl;
  serving = refl;
  deliveries = λ id. refl;
}

pub with_report_uids-Quiet : (m : List ℕ) (σ : State) → Quiet σ (with_report_uids m σ)
unfolding with_report_uids delivered
with_report_uids-Quiet m σ = record {
  transmitted = refl;
  coll = refl;
  config = refl;
  serving = refl;
  deliveries = λ id. refl;
}

-- One capsule may have been handed to `sendData`, once.
pub record Delivers (x : ℕ) (σ σ' : State) : Type 0 where
  pub transmitted : σ'.ds.transmitted_data_ids ≡ σ.ds.transmitted_data_ids
  pub coll : σ'.env.coll ≡ σ.env.coll
  pub config : σ'.env.config ≡ σ.env.config
  pub serving : serves σ'.env.local_cs ≡ serves σ.env.local_cs
  pub deliveries : (id : ℕ) → delivered id σ' ≤ delivered id σ + (if x == id then 1 else 0)

pub Quiet-Delivers : (x : ℕ) {σ σ' : State} → Quiet σ σ' → Delivers x σ σ'
Quiet-Delivers x f = record {
  transmitted = f.transmitted;
  coll = f.coll;
  config = f.config;
  serving = f.serving;
  deliveries = λ id. ground (arith, f.deliveries id);
}

pub Delivers-between :
    (x : ℕ) {σ τ υ φ : State} → Quiet σ τ → Delivers x τ υ → Quiet υ φ → Delivers x σ φ
Delivers-between x f d g = record {
  transmitted = g.transmitted ∙ (d.transmitted ∙ f.transmitted);
  coll = g.coll ∙ (d.coll ∙ f.coll);
  config = g.config ∙ (d.config ∙ f.config);
  serving = g.serving ∙ (d.serving ∙ f.serving);
  deliveries = λ id. ground (arith, f.deliveries id, d.deliveries id, g.deliveries id);
}
