-- ===== src/Subgraph/Status/Verdict.antt =====
-- What the status of a redundant sub-path says (model/lltc/lltc-resilient-routes-subgraph.cpp).
use drtp.Base.{ℕ, ◌≡◌, refl, ◌⊎◌, inl, inr, Bool-cases, List, [], ◌∷◌, arith, ◌==◌}
use drtp.Subgraph.{rsg_get_link_id, status_of, rsp_status_from, rsp_status}

-- Some link behind the node has failed: its status is 1.
abbrev pub FailedBehind : ℕ → List ℕ → List (ℕ × ℕ) → Type 0
FailedBehind prev [] m = ⊥
FailedBehind prev (node ∷ nodes) m =
    (status_of (rsg_get_link_id prev node) m ≡ 1) ⊎ FailedBehind node nodes m

-- Some link between consecutive nodes has failed.
abbrev pub FailedLink : List ℕ → List (ℕ × ℕ) → Type 0
FailedLink [] m = ⊥
FailedLink (node ∷ nodes) m = FailedBehind node nodes m

-- A status says whether some link has failed.
abbrev pub Tells : Type 0 → ℕ → Type 0
Tells failed status = ((status ≡ 1) × failed) ⊎ ((status ≡ 0) × ¬ failed)

rsp_status_from-Tells :
    (prev : ℕ) (nodes : List ℕ) (m : List (ℕ × ℕ))
    → Tells (FailedBehind prev nodes m) (rsp_status_from prev nodes m)
unfolding rsp_status_from
rsp_status_from-Tells prev [] m = inr (refl, λ f. f)
rsp_status_from-Tells prev (node ∷ nodes) m =
    elim (Bool-cases (status_of (rsg_get_link_id prev node) m == 1)) [
      | inl e ↦ inl (rw e refl, inl (ground (arith, e)))
      | inr e ↦ elim (rsp_status_from-Tells node nodes m) [
        | inl (s, f) ↦ inl (rw e s, inr f)
        | inr (s, n) ↦
            inr (rw e s, λ f. elim f [ inl one ↦ ground (arith, one, e) | inr later ↦ n later ])
      ]
    ]

pub rsp_status-Tells :
    (nodes : List ℕ) (m : List (ℕ × ℕ)) (status : ℕ)
    → status ≡ rsp_status nodes m
    → Tells (FailedLink nodes m) status
unfolding rsp_status
rsp_status-Tells [] m status e = inr (e, λ f. f)
rsp_status-Tells (node ∷ nodes) m status e = rw e (rsp_status_from-Tells node nodes m)
