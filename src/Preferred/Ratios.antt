-- ===== src/Preferred/Ratios.antt =====
-- The logarithms of success ratios, `double`s, that `rsgComputePreferredPathID`
-- (model/lltc/lltc-resilient-routes-subgraph.cpp) adds up and writes back through keys.
use drtp.Base.{ℕ, suc, ◌+◌, ◌*◌, ◌^◌, ◌≤◌, ◌<◌, ◌≡◌, ◌⊎◌, inl, inr, false, true, arith}
use drtp.Preferred.{Double}

-- The most nodes of a subgraph: the keys of sums of 512 logarithms are below 2^52, up to which a
-- `double` holds every key.
abbrev pub most_nodes : ℕ
most_nodes = 512

module _ {W : Type 0} (fl : Double W) where
  -- The logarithm of a ratio: not above zero, and either far below the least logarithm of a positive
  -- `double` other than zero, -745.2, so that it has the least key, or with a key that is less than that
  -- of zero by 8 * 10^12 at most.
  abbrev pub IsRatio : W → Type 0
  IsRatio b = (fl.gt b fl.nought ≡ false) × ((fl.key b ≡ 0) ⊎ (2 ^ 63 ≤ fl.key b + 8000000000000))

  -- What the search makes of `n` logarithms: not above zero, and with the least key, or one that is less
  -- than that of zero by 2^43 for each at most.
  abbrev pub IsLog : ℕ → W → Type 0
  IsLog n a =
      (fl.gt a fl.nought ≡ false) × ((fl.key a ≡ 0) ⊎ (2 ^ 63 ≤ fl.key a + n * 8796093022208))

-- The behaviour of doubles that the search relies on, where `(long)` gives the least `long` for what does
-- not fit (as x86 does). It is asked for sums of at most `most_nodes` logarithms that are greater than
-- another: their keys are in order, and a key that is written back as a double and read again is no less
-- and stays in the range of the sum.
pub record IsDouble {W : Type 0} (fl : Double W) : Type 0 where
  pub nought_log : IsLog fl 0 fl.nought
  pub infinity_log : IsLog fl 0 fl.minus_infinity
  pub key_monotone :
      (n : ℕ) (a b c : W)
      → n < most_nodes
      → IsLog fl n a
      → IsRatio fl b
      → IsLog fl (suc n) c
      → fl.gt (fl.plus a b) c ≡ true
      → fl.key c ≤ fl.key (fl.plus a b)
  pub rounds :
      (n : ℕ) (a b c : W)
      → n < most_nodes
      → IsLog fl n a
      → IsRatio fl b
      → IsLog fl (suc n) c
      → fl.gt (fl.plus a b) c ≡ true
      → fl.key (fl.plus a b) ≤ fl.key (fl.of_key (fl.key (fl.plus a b)))
  pub written_back :
      (n : ℕ) (a b c : W)
      → n < most_nodes
      → IsLog fl n a
      → IsRatio fl b
      → IsLog fl (suc n) c
      → fl.gt (fl.plus a b) c ≡ true
      → IsLog fl (suc n) (fl.of_key (fl.key (fl.plus a b)))

module _ {W : Type 0} (fl : Double W) where
  pub IsLog-suc : (n : ℕ) (a : W) → IsLog fl n a → IsLog fl (suc n) a
  IsLog-suc n a (top, inl e) = (top, inl e)
  IsLog-suc n a (top, inr h) = (top, inr (omega (arith, h)))
