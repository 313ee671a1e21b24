-- ===== src/Retrans/Events/Next.antt =====
-- `computeNextDataId` of lltc-strategy-service-sublayer-retrans-control.cpp: the loop ends, at the
-- first ID that is in neither set.
use drtp.Base.{
  ℕ, zero, suc, ◌+◌, ◌%◌, ◌^◌, ◌≤◌, ◌<◌, ◌≡◌, true, false, ◌||◌, inl, inr, List, [], ◌∷◌, arith,
  leb, Bool, Bool-cases, ◌==◌, ==_iff,
}
use mathlib.Core.Path.{subst}
use drtp.Base.Seqs.{length, elem, tally}
use drtp.DataIdQueue.{contains}
use drtp.State.{CapsuleForwardingStates}
use drtp.Retrans.Events.{next_free, compute_next_data_id}

-- Whether the loop passes over an ID.
abbrev pub skips : CapsuleForwardingStates → ℕ → Bool
skips ds id = elem id ds.lost_data_ids_from_prev_routers || contains ds.transmitted_data_ids id

-- `UINT_MAX` is no ID, so that the loop does not wrap.
abbrev pub NoWrap : CapsuleForwardingStates → Type 0
NoWrap ds = (id : ℕ) → skips ds id ≡ true → id + 1 < 2 ^ 32

above : ℕ → List ℕ → ℕ
above x = tally (leb x)

above-le-length : (x : ℕ) (xs : List ℕ) → above x xs ≤ length xs
unfolding above tally
above-le-length x [] = omega arith
above-le-length x (y ∷ ys) = ground (arith, above-le-length x ys)

above-suc-le : (x : ℕ) (xs : List ℕ) → above (x + 1) xs ≤ above x xs
unfolding above tally
above-suc-le x [] = omega arith
above-suc-le x (y ∷ ys) = ground (arith, above-suc-le x ys)

above-suc-lt : (x : ℕ) (xs : List ℕ) → elem x xs ≡ true → above (x + 1) xs < above x xs
unfolding above tally elem
above-suc-lt x [] h = absurd (ground arith)
above-suc-lt x (y ∷ ys) h = ground (arith, above-suc-lt x ys, above-suc-le x ys)

-- What is left to skip.
left : CapsuleForwardingStates → ℕ → ℕ
left ds x = above x ds.lost_data_ids_from_prev_routers + above x ds.transmitted_data_ids.set

left-step : (ds : CapsuleForwardingStates) (x : ℕ) → skips ds x ≡ true → left ds (x + 1) < left ds x
unfolding left contains
left-step ds x h = ground (
  arith,
  above-suc-lt x ds.lost_data_ids_from_prev_routers,
  above-suc-lt x ds.transmitted_data_ids.set,
  above-suc-le x ds.lost_data_ids_from_prev_routers,
  above-suc-le x ds.transmitted_data_ids.set,
)

-- The first ID from `x` on that is not skipped.
pub record IsFirstFree (ds : CapsuleForwardingStates) (x r : ℕ) : Type 0 where
  pub free : skips ds r ≡ false
  pub from : x ≤ r
  pub fits : r < 2 ^ 32
  pub least : (k : ℕ) → x ≤ k → k < r → skips ds k ≡ true

next_free_lem :
    (fuel : ℕ) (ds : CapsuleForwardingStates) (x : ℕ)
    → NoWrap ds
    → x < 2 ^ 32
    → left ds x < fuel
    → IsFirstFree ds x (next_free fuel ds x)
unfolding next_free
next_free_lem zero ds x w b h = absurd (omega arith)
next_free_lem (suc fuel) ds x w b h = elim (Bool-cases (skips ds x)) [
  | inr stop ↦
      rw stop (record {
        free = stop;
        from = omega arith;
        fits = b;
        least = λ k p q. absurd (omega arith);
      })
  | inl skip ↦
      let small = w x skip in
      let e : (x + 1) % 2 ^ 32 ≡ x + 1 = omega arith in
      let ih = next_free_lem fuel ds (x + 1) w small (omega (arith, left-step ds x skip)) in
      rw (skip, e)
        (record {
          free = ih.free;
          from = omega (arith, ih.from);
          fits = ih.fits;
          least = λ k p q. elim (Bool-cases (x == k)) [
            | inl here ↦ subst (λ z. skips ds z ≡ true) ((==_iff x k).0 here) skip
            | inr later ↦ ih.least k (ground arith) q
          ];
        })
]

-- The next ID to wait for is the first one after the current that is neither known to be lost
-- upstream nor passed on already; the fuel is enough for the loop to find it.
pub compute_next_data_id_first :
    (ds : CapsuleForwardingStates) (cur : ℕ)
    → NoWrap ds
    → cur + 1 < 2 ^ 32
    → IsFirstFree ds (cur + 1) (compute_next_data_id ds cur)
unfolding compute_next_data_id
compute_next_data_id_first ds cur w h =
    let e : (cur + 1) % 2 ^ 32 ≡ cur + 1 = omega arith in
    rw e (next_free_lem _ ds (cur + 1) w h (bounded ds (cur + 1)))
  where
    bounded :
        (ds : CapsuleForwardingStates) (x : ℕ)
        → left ds x
          < length ds.lost_data_ids_from_prev_routers + length ds.transmitted_data_ids.set + 1
    bounded ds x =
        unfold left in
        omega (
          arith,
          above-le-length x ds.lost_data_ids_from_prev_routers,
          above-le-length x ds.transmitted_data_ids.set,
        )
