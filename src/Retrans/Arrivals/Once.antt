-- ===== src/Retrans/Arrivals/Once.antt =====
-- No capsule is handed to `sendData` twice, whichever message brought it: `onReceiveCapsule`
-- (lltc-strategy-service-sublayer-forwarding.cpp), `onReceiveRetranS` and `onReceiveRetranM`
-- (lltc-strategy-service-sublayer-retrans-control.cpp).
use drtp.Base.{
  ℕ, ◌+◌, ◌^◌, ◌≤◌, ◌<◌, ◌≡◌, refl, ◌∙◌, Bool, true, false, inl, inr, Option, some, List, arith,
  ◌==◌, ◌||◌, >>=-eq-some, of_result, if◌then◌else◌, ◌>>=◌,
}
use mathlib.Core.Path.{subst}
use drtp.Base.Seqs.{length}
use drtp.Messages.{Data, RetransType, RetranSUri, RetranMUri, capsule}
use drtp.Fs.{ForwardingStateCollection, ForwardingStateForRsg}
use drtp.DataIdQueue.{LltcDataIdQueue, contains, push}
use drtp.DataIdQueue.Capacity.{Slack, push-Slack}
use drtp.State.{State, PitEntry}
use drtp.State.Ops.{with_transmitted}
use drtp.State.Frame.{Quiet, Delivers, Frame-refl, quiet, delivered, serves}
use drtp.Retrans.Events.{check_and_record_retransmitted_data_id}
use drtp.Retrans.Events.Recording.{check_and_record_cases}
use drtp.Retrans.Arrivals.{
  accept_capsule, on_receive_capsule, accept_retran_s, on_receive_retran_s, retran_s_of_type,
  accept_retran_m, on_receive_retran_m,
}
use drtp.Retrans.Arrivals.Effects.{
  accept_capsule-Delivers, accept_retran_s-Delivers, accept_retran_m-Delivers, miss_answer-Frame,
}

-- The forwarding state stays, and so does whether the content store serves; retransmission is on. Every
-- capsule that was handed to `sendData` is recorded as passed on, and was so once; the queue
-- of the recorded IDs has `k` entries at most.
pub record AtMostOnce (kept : ForwardingStateCollection × Bool) (limit k : ℕ) (σ : State)
    : Type 0 where
  pub same_coll : σ.env.coll ≡ kept.0
  pub same_serving : serves σ.env.local_cs ≡ kept.1
  pub enabled : σ.env.config.disable_retran ≡ false
  pub room : Slack limit σ.ds.transmitted_data_ids
  pub size : length σ.ds.transmitted_data_ids.q ≤ k
  pub once : (id : ℕ) → delivered id σ ≤ (if contains σ.ds.transmitted_data_ids id then 1 else 0)

pub Quiet-keeps :
    {kept : ForwardingStateCollection × Bool} {limit k : ℕ} {σ σ' : State}
    → Quiet σ σ'
    → AtMostOnce kept limit k σ
    → AtMostOnce kept limit k σ'
unfolding delivered contains
Quiet-keeps f v = record {
  same_coll = f.coll ∙ v.same_coll;
  same_serving = f.serving ∙ v.same_serving;
  enabled = ground (arith, f.config, v.enabled);
  room = rw f.transmitted v.room;
  size = rw f.transmitted (omega (arith, v.size));
  once = λ id. simp f.transmitted (omega (arith, f.deliveries id, v.once id));
}

pub weaken :
    {kept : ForwardingStateCollection × Bool} {limit k n : ℕ} {σ : State}
    → k ≤ n
    → AtMostOnce kept limit k σ
    → AtMostOnce kept limit n σ
weaken le v = record {
  same_coll = v.same_coll;
  same_serving = v.same_serving;
  enabled = v.enabled;
  room = v.room;
  size = omega (arith, v.size);
  once = v.once;
}

pub Quiet-AtMostOnce :
    {kept : ForwardingStateCollection × Bool} {limit k : ℕ} {σ σ' : State}
    → Quiet σ σ'
    → AtMostOnce kept limit k σ
    → AtMostOnce kept limit (k + 1) σ'
Quiet-AtMostOnce f v = weaken (omega arith) (Quiet-keeps f v)

recorded-AtMostOnce :
    {kept : ForwardingStateCollection × Bool} (limit k x : ℕ) (σ τ : State) (d : LltcDataIdQueue)
    → AtMostOnce kept limit k σ
    → contains σ.ds.transmitted_data_ids x ≡ false
    → Slack limit d
    → ((y : ℕ) → contains d y ≡ ((x == y) || contains σ.ds.transmitted_data_ids y))
    → length d.q ≤ length σ.ds.transmitted_data_ids.q + 1
    → Delivers x (with_transmitted d σ) τ
    → AtMostOnce kept limit (k + 1) τ
unfolding with_transmitted delivered
recorded-AtMostOnce limit k x σ τ d v fresh room c l del = record {
  same_coll = del.coll ∙ v.same_coll;
  same_serving = del.serving ∙ v.same_serving;
  enabled = ground (arith, del.config, v.enabled);
  room = rw del.transmitted room;
  size = rw del.transmitted (omega (arith, v.size));
  once = λ id. simp del.transmitted (ground (arith, v.once id, del.deliveries id, c id, same id));
}
  where
    same : (id : ℕ) → x ≡ id → contains σ.ds.transmitted_data_ids id ≡ false
    same id e = rw (← e) fresh

-- A recorded capsule, from the push of its ID.
pushed-AtMostOnce :
    {kept : ForwardingStateCollection × Bool} (limit k x : ℕ) (σ τ : State) (d : LltcDataIdQueue)
    → AtMostOnce kept limit k σ
    → limit + k + 1 < 2 ^ 64
    → contains σ.ds.transmitted_data_ids x ≡ false
    → push σ.ds.transmitted_data_ids x σ.env.now ≡ some d
    → Delivers x (with_transmitted d σ) τ
    → AtMostOnce kept limit (k + 1) τ
pushed-AtMostOnce limit k x σ τ d v h fresh p del =
    let (d', p', room, c, l) =
      push-Slack limit σ.ds.transmitted_data_ids x σ.env.now v.room (omega (arith, v.size)) in
    let e : d' ≡ d = cc in
    recorded-AtMostOnce limit k x σ τ d v fresh (subst (Slack limit) e room) (λ y. rw (← e) (c y))
      (rw (← e) l) del

-- The handlers begin with the same check: a capsule that was passed on before changes nothing.
checked-AtMostOnce :
    {kept : ForwardingStateCollection × Bool} (limit k x : ℕ) (σ : State)
    (accept : State → Option State) {σ' : State}
    → AtMostOnce kept limit k σ
    → limit + k + 1 < 2 ^ 64
    → ((τ υ : State) → accept τ ≡ some υ → Delivers x τ υ)
    → (check_and_record_retransmitted_data_id x σ >>= λ r. if r.0 then accept (r.1) else some (r.1))
      ≡ some σ'
    → AtMostOnce kept limit (k + 1) σ'
checked-AtMostOnce limit k x σ accept {σ'} v h delivers e =
    let ((b, σ1), checked, rest) =
      >>=-eq-some (check_and_record_retransmitted_data_id x σ)
        (λ r. if r.0 then accept (r.1) else some (r.1)) e in
    elim (check_and_record_cases x σ checked) [
      | inl (no_, same, known) ↦
          of_result (AtMostOnce _ limit (k + 1)) refl (rw (no_, same) at rest)
            (Quiet-AtMostOnce (quiet (Frame-refl σ)) v)
      | inr (d, new, pushed, fresh, p) ↦
          pushed-AtMostOnce limit k x σ σ' d v h fresh p
            (delivers (with_transmitted d σ) σ' (rw (new, pushed) at rest))
    ]

enabled_branch :
    {A : Type 0} {r : A} (b : Bool) (m m' : A) → b ≡ false → (if b then m else m') ≡ r → m' ≡ r
enabled_branch true m m' h e = absurd (let f : ⊥ = cc in f)
enabled_branch false m m' h e = e

-- A capsule that arrives keeps every capsule passed on at most once.
pub on_receive_capsule-AtMostOnce :
    {kept : ForwardingStateCollection × Bool} (limit k : ℕ) (packet : Data) (id : ℕ)
    (content : List ℕ) (pit : PitEntry) (rsg_id : ℕ) (fs : ForwardingStateForRsg) (σ : State)
    {σ' : State}
    → AtMostOnce kept limit k σ
    → limit + k + 1 < 2 ^ 64
    → packet.body ≡ capsule id content
    → on_receive_capsule packet id content pit rsg_id fs σ ≡ some σ'
    → AtMostOnce kept limit (k + 1) σ'
unfolding on_receive_capsule
on_receive_capsule-AtMostOnce limit k packet id content pit rsg_id fs σ v h b e =
    checked-AtMostOnce limit k id σ (accept_capsule packet id content pit rsg_id fs) v h
      (λ τ υ. accept_capsule-Delivers packet id content pit rsg_id fs τ b)
      (enabled_branch σ.env.config.disable_retran _ _ v.enabled e)

of_type-AtMostOnce :
    {kept : ForwardingStateCollection × Bool} (limit k : ℕ) (type : RetransType) (packet : Data)
    (dru : RetranSUri) (content : List ℕ) (pit : PitEntry) (rsg_id : ℕ) (fs : ForwardingStateForRsg)
    (σ : State) {σ' : State}
    → AtMostOnce kept limit k σ
    → limit + k + 1 < 2 ^ 64
    → retran_s_of_type type packet dru content pit rsg_id fs σ ≡ some σ'
    → AtMostOnce kept limit (k + 1) σ'
unfolding retran_s_of_type
of_type-AtMostOnce limit k RetransType.miss packet dru content pit rsg_id fs σ v h e =
    of_result (AtMostOnce _ limit (k + 1)) refl e
      (Quiet-AtMostOnce (quiet (miss_answer-Frame dru pit rsg_id fs σ)) v)
of_type-AtMostOnce limit k type packet dru content pit rsg_id fs σ v h e =
    checked-AtMostOnce limit k dru.data_id σ (accept_retran_s packet dru content pit rsg_id fs) v h
      (λ τ υ. accept_retran_s-Delivers packet dru content pit rsg_id fs τ) e

-- So does a capsule that is retransmitted to this node alone, or the notice that it cannot be.
pub on_receive_retran_s-AtMostOnce :
    {kept : ForwardingStateCollection × Bool} (limit k : ℕ) (packet : Data) (dru : RetranSUri)
    (content : List ℕ) (pit : PitEntry) (rsg_id : ℕ) (fs : ForwardingStateForRsg) (σ : State)
    {σ' : State}
    → AtMostOnce kept limit k σ
    → limit + k + 1 < 2 ^ 64
    → on_receive_retran_s packet dru content pit rsg_id fs σ ≡ some σ'
    → AtMostOnce kept limit (k + 1) σ'
unfolding on_receive_retran_s
on_receive_retran_s-AtMostOnce limit k packet dru content pit rsg_id fs σ v h e =
    of_type-AtMostOnce limit k dru.type packet dru content pit rsg_id fs σ v h e

-- And one that is retransmitted in a batch.
pub on_receive_retran_m-AtMostOnce :
    {kept : ForwardingStateCollection × Bool} (limit k : ℕ) (packet : Data) (drbu : RetranMUri)
    (content : List ℕ) (pit : PitEntry) (rsg_id : ℕ) (fs : ForwardingStateForRsg) (σ : State)
    {σ' : State}
    → AtMostOnce kept limit k σ
    → limit + k + 1 < 2 ^ 64
    → on_receive_retran_m packet drbu content pit rsg_id fs σ ≡ some σ'
    → AtMostOnce kept limit (k + 1) σ'
unfolding on_receive_retran_m
on_receive_retran_m-AtMostOnce limit k packet drbu content pit rsg_id fs σ v h e =
    checked-AtMostOnce limit k drbu.data_id σ (accept_retran_m packet drbu content pit rsg_id fs) v
      h (λ τ υ. accept_retran_m-Delivers packet drbu content pit rsg_id fs τ) e
