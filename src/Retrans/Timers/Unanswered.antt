-- ===== src/Retrans/Timers/Unanswered.antt =====
-- How often a task of lltc-strategy-service-sublayer-retrans-control.cpp asks for a capsule that does
-- not come.
use drtp.Base.{
  ap, ℕ, zero, suc, ◌<◌, Option, ◌+◌, ◌≡◌, refl, ◌∙◌, Bool, true, false, List, [], ◌∷◌, none, some,
  arith, ◌==◌, ◌&&◌, if◌then◌else◌,
}
use drtp.Base.Seqs.{tally}
use drtp.Messages.{Body, request_s, construct_request_s}
use drtp.Fs.{LltcFibEntry}
use drtp.State.{
  State, Call, Task, PitEntry, RequestCallingParam, send_non_pit_data, check_link, schedule,
  wait_for_next_capsule_iterative,
}
use drtp.State.Ops.{call, schedule_task, send_lltc_non_pit_data, with_single}
use drtp.Retrans.Timers.{
  request_single, iterative_from, wait_for_next_capsule_delayed_task_iterative,
}

-- A RequestS for the capsule.
is_request_of : ℕ → Body → Bool
is_request_of id (request_s rru) = rru.lost_data_id == id
is_request_of id body = false

unfoldable pub is_request_call : ℕ → Call → Bool
unfolding is_request_of
is_request_call id (send_non_pit_data d face) = is_request_of id d.body
is_request_call id c = false

-- How many RequestS for the capsule were sent.
unfoldable pub requests : ℕ → State → ℕ
unfolding is_request_call
requests id σ = tally (is_request_call id) σ.env.calls

unfoldable pub is_link_check : Call → Bool
is_link_check (check_link face) = true
is_link_check c = false

unfoldable pub link_checks : State → ℕ
unfolding is_link_check
link_checks σ = tally is_link_check σ.env.calls

-- The task that was scheduled last.
unfoldable pub last_task : List Call → Option Task
last_task [] = none
last_task (schedule delay task ∷ calls) = some task
last_task (c ∷ calls) = last_task calls

-- The task that was scheduled between two states, the last one if there are several.
unfoldable pub scheduled_since : State → State → Option Task
unfolding last_task
scheduled_since σ τ = if τ.env.scheduled == σ.env.scheduled then none else last_task τ.env.calls

-- The task, the task that it schedules, and so on, while no answer comes; with fuel.
unfoldable pub unanswered : ℕ → Task → State → State
unanswered zero task σ = σ
unanswered (suc fuel) (wait_for_next_capsule_iterative lost rrcp pit fe check) σ =
    let τ = wait_for_next_capsule_delayed_task_iterative lost rrcp pit fe check σ in
    elim (scheduled_since σ τ) [ none ↦ τ | some next ↦ unanswered fuel next τ ]
unanswered (suc fuel) task σ = σ

link_check_once :
    (b : Bool) (face lost : ℕ) (σ : State)
    → let τ : State = if b then call (check_link face) σ else σ in
      (requests lost τ ≡ requests lost σ)
      × (link_checks τ ≡ link_checks σ + (if b then 1 else 0))
      × (τ.env.config ≡ σ.env.config)
unfolding requests link_checks call tally
link_check_once true face lost σ = (refl, omega arith, refl)
link_check_once false face lost σ = (refl, omega arith, refl)

asked_once :
    (lost : ℕ) (rrcp : RequestCallingParam) (pit : PitEntry) (fe : LltcFibEntry) (check : Bool)
    (rest : ℕ) (σ : State)
    → (requests lost (request_single lost rrcp pit fe check rest σ) ≡ requests lost σ + 1)
      × (link_checks (request_single lost rrcp pit fe check rest σ) ≡ link_checks σ)
      × ((request_single lost rrcp pit fe check rest σ).env.config ≡ σ.env.config)
unfolding request_single requests link_checks call tally schedule_task send_lltc_non_pit_data
    with_single construct_request_s
asked_once lost rrcp pit fe check rest σ = (ground arith, refl, refl)

-- The last run schedules nothing.
scheduled_last :
    (b : Bool) (face : ℕ) (σ : State)
    → scheduled_since σ (if b then call (check_link face) σ else σ) ≡ none
unfolding scheduled_since call
scheduled_last true face σ = ground arith
scheduled_last false face σ = ground arith

scheduled_next :
    (lost : ℕ) (rrcp : RequestCallingParam) (pit : PitEntry) (fe : LltcFibEntry) (check : Bool)
    (rest : ℕ) (σ : State)
    → scheduled_since σ (request_single lost rrcp pit fe check rest σ)
      ≡ some (
          wait_for_next_capsule_iterative lost
            (record rrcp { rest_retrans_requests = rest })
            pit
            fe
            check)
unfolding scheduled_since request_single call schedule_task send_lltc_non_pit_data with_single
scheduled_next lost rrcp pit fe check rest σ = ground arith

module _ (lost : ℕ) (pit : PitEntry) (fe : LltcFibEntry) (check : Bool) where
  abbrev pub AsksFor : ℕ → ℕ → RequestCallingParam → State → Type 0
  AsksFor fuel rest rrcp σ =
      let τ = unanswered fuel (wait_for_next_capsule_iterative lost rrcp pit fe check) σ in
      (requests lost τ ≡ requests lost σ + rest)
      × (link_checks τ ≡ link_checks σ + (if check && σ.env.config.enable_failover then 1 else 0))

  abbrev task : RequestCallingParam → Task
  task rrcp = wait_for_next_capsule_iterative lost rrcp pit fe check

  abbrev run_once : RequestCallingParam → State → State
  run_once rrcp σ = wait_for_next_capsule_delayed_task_iterative lost rrcp pit fe check σ

  last_run :
      (fuel : ℕ) (rrcp : RequestCallingParam) (σ : State)
      → scheduled_since σ (run_once rrcp σ) ≡ none
      → unanswered (suc fuel) (task rrcp) σ ≡ run_once rrcp σ
  unfolding unanswered
  last_run fuel rrcp σ h = rw (unanswered, h) refl

  next_run :
      (fuel : ℕ) (rrcp : RequestCallingParam) (σ : State) (next : Task)
      → scheduled_since σ (run_once rrcp σ) ≡ some next
      → unanswered (suc fuel) (task rrcp) σ ≡ unanswered fuel next (run_once rrcp σ)
  unfolding unanswered
  next_run fuel rrcp σ next h = rw (unanswered, h) refl

  run_with :
      (rest : ℕ) (rrcp : RequestCallingParam) (σ : State)
      → rrcp.rest_retrans_requests ≡ rest
      → run_once rrcp σ ≡ iterative_from lost rrcp pit fe check rest σ
  unfolding wait_for_next_capsule_delayed_task_iterative
  run_with rest rrcp σ e = ap (λ n. iterative_from lost rrcp pit fe check n σ) e

  abbrev final : State → State
  final σ =
      if check && σ.env.config.enable_failover then call (check_link fe.face_next_hop) σ else σ

  ended :
      (fuel : ℕ) (rrcp : RequestCallingParam) (σ : State)
      → rrcp.rest_retrans_requests ≡ 0
      → unanswered (suc fuel) (task rrcp) σ ≡ final σ
  unfolding iterative_from
  ended fuel rrcp σ e =
      let once = run_with 0 rrcp σ e in
      last_run fuel rrcp σ (
        ap (scheduled_since σ) once
        ∙ scheduled_last (check && σ.env.config.enable_failover) fe.face_next_hop σ)
      ∙ once

  continued :
      (fuel rest : ℕ) (rrcp : RequestCallingParam) (σ : State)
      → rrcp.rest_retrans_requests ≡ suc rest
      → unanswered (suc fuel) (task rrcp) σ
        ≡ unanswered fuel
            (task (record rrcp { rest_retrans_requests = rest }))
            (request_single lost rrcp pit fe check rest σ)
  unfolding iterative_from
  continued fuel rest rrcp σ e =
      let once = run_with (suc rest) rrcp σ e in
      let next = task (record rrcp { rest_retrans_requests = rest }) in
      next_run fuel rrcp σ next
        (ap (scheduled_since σ) once ∙ scheduled_next lost rrcp pit fe check rest σ)
      ∙ ap (unanswered fuel next) once

  asks :
      (fuel rest : ℕ) (rrcp : RequestCallingParam) (σ : State)
      → rrcp.rest_retrans_requests ≡ rest
      → rest < fuel
      → AsksFor fuel rest rrcp σ
  asks zero rest rrcp σ e h = absurd (let f : ⊥ = omega (arith, h) in f)
  asks (suc fuel) zero rrcp σ e h =
      let last = check && σ.env.config.enable_failover in
      let (r, l, c) = link_check_once last fe.face_next_hop lost σ in
      rw (ended fuel rrcp σ e) (omega (arith, r), l)
  asks (suc fuel) (suc rest) rrcp σ e h =
      let (r, l, c) = asked_once lost rrcp pit fe check rest σ in
      let (r', l') =
        asks fuel rest (record rrcp { rest_retrans_requests = rest })
          (request_single lost rrcp pit fe check rest σ) refl (omega (arith, h)) in
      rw (continued fuel rest rrcp σ e) (omega (arith, r, r'), ground (arith, l, l', c))

  -- A capsule that is asked for and never comes: following the task, the task that it schedules and so
  -- on, for more runs than the parameter has requests, sends as many RequestS for the capsule as the
  -- parameter says and no more, and checks the link once if the flag and failover say so, else never.
  pub unanswered-requests :
      (fuel : ℕ) (rrcp : RequestCallingParam) (σ : State)
      → rrcp.rest_retrans_requests < fuel
      → AsksFor fuel rrcp.rest_retrans_requests rrcp σ
  unanswered-requests fuel rrcp σ h = asks fuel rrcp.rest_retrans_requests rrcp σ refl h
