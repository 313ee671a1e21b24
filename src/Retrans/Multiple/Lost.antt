-- ===== src/Retrans/Multiple/Lost.antt =====
-- `discoverLostCapsules` and the requests for several capsules
-- (lltc-strategy-service-sublayer-retrans-control.cpp).
pub mod Frames
use drtp.Base.{
  ℕ, zero, suc, ◌+◌, ◌-◌, ◌%◌, ◌^◌, ◌≤◌, ◌<◌, ◌≡◌, Bool, not, ◌&&◌, ◌||◌, List, [], ◌∷◌, arith,
  ◌==◌, ltb, leb, ap, if◌then◌else◌,
}
use drtp.Base.Seqs.{elem, keep}
use drtp.Base.Maps.{has_key}
use drtp.DataIdQueue.{contains}
use drtp.State.{CapsuleForwardingStates}
use drtp.Retrans.Multiple.{range_from, is_newly_lost, new_lost_data_ids}

pub elem-range_from : (x a n : ℕ) → elem x (range_from a n) ≡ (leb a x && ltb x (a + n))
unfolding elem range_from
elem-range_from x a zero = ground arith
elem-range_from x a (suc n) = ground (arith, elem-range_from x (a + 1) n)

pub elem-keep : (x : ℕ) (p : ℕ → Bool) (xs : List ℕ) → elem x (keep p xs) ≡ (p x && elem x xs)
unfolding elem keep
elem-keep x p [] = ground arith
elem-keep x p (y ∷ ys) = ground (arith, elem-keep x p ys, ap {B = Bool} p)

-- The IDs taken for lost are those between the last ID and the new one that are not known to be lost
-- upstream, not awaited and not passed on.
pub elem-new_lost_data_ids :
    (ds : CapsuleForwardingStates) (cur x : ℕ)
    → ds.last_data_id + 1 < 2 ^ 32
    → elem x (new_lost_data_ids ds cur) ≡ (
        not (
          elem x ds.lost_data_ids_from_prev_routers
          || has_key x ds.wait_for_next_data_events
          || contains ds.transmitted_data_ids x)
        && (ltb ds.last_data_id x && ltb x cur))
unfolding new_lost_data_ids is_newly_lost
elem-new_lost_data_ids ds cur x h =
    let first : ℕ = ds.last_data_id + 1 in
    let e : (ds.last_data_id + 1) % 2 ^ 32 ≡ first = omega arith in
    rw
      (
        e,
        elem-keep x (is_newly_lost ds) (range_from first (cur - first)),
        elem-range_from x first (cur - first),
      )
      (ground arith)
