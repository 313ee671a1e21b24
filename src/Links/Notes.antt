-- ===== src/Links/Notes.antt =====
-- What the first loop of `updateFaceStatsWithLinkTestStates`
-- (lltc-strategy-forwarding-sublayer-path-control.cpp) notes of a face.
use drtp.Base.{
  ℕ, ◌+◌, ◌≡◌, refl, sym, ==_iff, ap, ◌∙◌, Bool, true, false, ◌&&◌, ◌||◌, inl, inr, Option, none,
  some, List, [], ◌∷◌, arith, ◌==◌, Bool-cases, Option-cases, >>=-eq-some, of_result, if◌then◌else◌,
}
use drtp.Base.Seqs.{elem, Distinct}
use drtp.Base.Maps.{find, assign, erase, find-assign, find-erase}
use drtp.Links.{EchoMessageState, FaceStatusInternal}
use drtp.Links.Echos.{note_echo, note_echos}

-- An echo of the face, and one that was answered.
abbrev pub asks : ℕ → Option EchoMessageState → Bool
asks face none = false
asks face (some ems) = ems.fe == face

abbrev pub answers : ℕ → Option EchoMessageState → Bool
answers face none = false
answers face (some ems) = (ems.fe == face) && (ems.status == 0)

unfoldable pub was_asked : ℕ → List ℕ → List (ℕ × EchoMessageState) → Bool
was_asked face [] em = false
was_asked face (id ∷ ids) em = asks face (find id em) || was_asked face ids em

unfoldable pub has_answered : ℕ → List ℕ → List (ℕ × EchoMessageState) → Bool
has_answered face [] em = false
has_answered face (id ∷ ids) em = answers face (find id em) || has_answered face ids em

abbrev pub status_in : Option FaceStatusInternal → Option ℕ
status_in none = none
status_in (some fsi) = some fsi.face_status

-- What is known of a face before the echos that are left.
abbrev pub or_failure : Bool → Option ℕ → Option ℕ
or_failure true none = some 1
or_failure false none = none
or_failure b (some status) = some status

-- A write at the face of the echo.
written :
    (face k status backs : ℕ) (m : List (ℕ × FaceStatusInternal))
    → status_in (find face (assign k (record { face_status = status; n_backs = backs }) m))
      ≡ (if k == face then some status else status_in (find face m))
written face k status backs m =
    ground (arith, find-assign k face (record { face_status = status; n_backs = backs }) m)

back_case :
    (b : Bool) (s : Option ℕ)
    → (if b then some 0 else s) ≡ (if b && true then some 0 else or_failure b s)
back_case true s = refl
back_case false none = refl
back_case false (some t) = refl

lost_case :
    (b : Bool) (s : Option ℕ)
    → (b ≡ true → s ≡ none)
    → (if b then some 1 else s) ≡ (if b && false then some 0 else or_failure b s)
lost_case true none h = refl
lost_case true (some t) h = absurd (let f : some t ≡ none = h refl in let g : ⊥ = cc in g)
lost_case false none h = refl
lost_case false (some t) h = refl

kept_case :
    (b : Bool) (s : Option ℕ) (t : ℕ)
    → (b ≡ true → s ≡ some t)
    → s ≡ (if b && false then some 0 else or_failure b s)
kept_case true none t h = absurd (let f : none ≡ some t = h refl in let g : ⊥ = cc in g)
kept_case true (some u) t h = refl
kept_case false none t h = refl
kept_case false (some u) t h = refl

-- One echo settles what is known of its face: answered, or failed unless something is known.
noted :
    (face : ℕ) (ems : EchoMessageState) (m : List (ℕ × FaceStatusInternal))
    → status_in (find face (note_echo ems m)) ≡ (
        if (ems.fe == face) && (ems.status == 0)
        then some 0
        else or_failure (ems.fe == face) (status_in (find face m)))
unfolding note_echo
noted face ems m = elim (Option-cases (find ems.fe m)) [
  | inl e ↦ elim (Bool-cases (ems.status == 0)) [
    | inl back ↦
        rw (e, note_echo) (rw back (written face ems.fe 0 1 m ∙ back_case (ems.fe == face) _))
    | inr lost ↦
        rw (e, note_echo)
          (rw lost (
            written face ems.fe 1 0 m
            ∙ lost_case (ems.fe == face) _ (λ h. ap status_in (moved h ∙ e))))
  ]
  | inr (fsi, e) ↦ elim (Bool-cases (ems.status == 0)) [
    | inl back ↦
        rw (e, note_echo)
          (rw back (written face ems.fe 0 (fsi.n_backs + 1) m ∙ back_case (ems.fe == face) _))
    | inr lost ↦
        rw (e, note_echo)
          (rw lost (kept_case (ems.fe == face) _ fsi.face_status (λ h. ap status_in (moved h ∙ e))))
  ]
]
  where
    moved : (ems.fe == face) ≡ true → find face m ≡ find ems.fe m
    moved h = ap (λ k. find k m) (sym ((==_iff ems.fe face).0 h))

combined :
    (a s later asked : Bool) (t : Option ℕ)
    → (if later then some 0 else or_failure asked (if a && s then some 0 else or_failure a t))
      ≡ (if (a && s) || later then some 0 else or_failure (a || asked) t)
combined true true true asked t = refl
combined true true false true t = refl
combined true true false false t = refl
combined true false true asked t = refl
combined true false false true none = refl
combined true false false true (some u) = refl
combined true false false false none = refl
combined true false false false (some u) = refl
combined false s true asked t = refl
combined false s false true none = refl
combined false s false true (some u) = refl
combined false s false false none = refl
combined false s false false (some u) = refl

-- An echo that is not in the list does not matter to it.
without_echo :
    (face id : ℕ) (ids : List ℕ) (em : List (ℕ × EchoMessageState))
    → elem id ids ≡ false
    → (was_asked face ids (erase id em) ≡ was_asked face ids em)
      × (has_answered face ids (erase id em) ≡ has_answered face ids em)
unfolding was_asked has_answered elem
without_echo face id [] em h = (refl, refl)
without_echo face id (j ∷ ids) em h =
    let (a, b) = without_echo face id ids em (ground arith) in
    let same : find j (erase id em) ≡ find j em = ground (arith, find-erase id j em) in
    (rw (same, a) refl, rw (same, b) refl)

pub note_echos_lem :
    (face : ℕ) (ids : List ℕ) (em : List (ℕ × EchoMessageState)) (m : List (ℕ × FaceStatusInternal))
    {r : List (ℕ × EchoMessageState) × List (ℕ × FaceStatusInternal)}
    → Distinct ids
    → note_echos ids em m ≡ some r
    → status_in (find face (r.1)) ≡ (
        if has_answered face ids em
        then some 0
        else or_failure (was_asked face ids em) (status_in (find face m)))
unfolding note_echos was_asked has_answered
note_echos_lem face [] em m {r} d e =
    of_result (λ q. status_in (find face (q.1)) ≡ or_failure false (status_in (find face m))) refl e
      (unasked (status_in (find face m)))
  where
    unasked : (t : Option ℕ) → t ≡ or_failure false t
    unasked none = refl
    unasked (some u) = refl
note_echos_lem face (id ∷ ids) em m {r} d e =
    let (ems, found, rest) =
      >>=-eq-some (find id em) (λ ems. note_echos ids (erase id em) (note_echo ems m)) e in
    let (a, b) = without_echo face id ids em (d.0) in
    rw found (
      note_echos_lem face ids (erase id em) (note_echo ems m) {r = r} d.1 rest
      ∙ (rw (a, b, noted face ems m)
          (combined (ems.fe == face) (ems.status == 0) (has_answered face ids em)
            (was_asked face ids em) _)))
