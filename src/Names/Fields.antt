-- ===== src/Names/Fields.antt =====
-- NFD/daemon/fw/lltc-messages-helper.cpp (ndnSIM/ns-3/src/ndnSIM): the components of a name that
-- begins with a prefix.
use drtp.Base.{ℕ, suc, ◌+◌, ◌%◌, ◌^◌, ◌<◌, ◌≡◌, refl, ap, none, some, [], ◌∷◌, ◌++◌, arith}
use drtp.Base.Seqs.{length}
use drtp.Names.Texts.{stoll-show, stoull-show}
use drtp.Names.{Name, get, get_number, get_id, get_batch_id, number}

pub get-append : (p rest : Name) (k : ℕ) → get (length p + k) (p ++ rest) ≡ get k rest
unfolding get
get-append [] rest k = ap (λ (i : ℕ). get i rest) (omega arith)
get-append (t ∷ p) rest k =
    let step : suc (length p) + k ≡ suc (length p + k) = omega arith in
    rw step (get-append p rest k)

module _ (p rest : Name) (k v : ℕ) (h : v < 2 ^ 32) where
  -- A number below `2 ^ 32` is read back from its component.
  pub get_number-number :
      get k rest ≡ some (number v) → get_number (length p + k) (p ++ rest) ≡ some v
  unfolding get_number number
  get_number-number e =
      let wrap : v % 2 ^ 32 ≡ v = omega (arith, h) in
      rw (get-append p rest k, e, stoll-show v [] (omega (arith, h)) refl, wrap) refl

  pub get_id-number : get k rest ≡ some (number v) → get_id (length p + k) (p ++ rest) ≡ some v
  unfolding get_id number
  get_id-number e =
      let wrap : v % 2 ^ 32 ≡ v = omega (arith, h) in
      rw (get-append p rest k, e, stoull-show v [] (omega (arith, h)) refl, wrap) refl

-- A number of 64 bits is read back whole.
pub get_batch_id-number :
    (p rest : Name) (k v : ℕ)
    → v < 2 ^ 64
    → get k rest ≡ some (number v)
    → get_batch_id (length p + k) (p ++ rest) ≡ some v
unfolding get_batch_id number
get_batch_id-number p rest k v h e =
    rw (get-append p rest k, e, stoull-show v [] (omega (arith, h)) refl) refl

-- There is no component behind the end of a name.
pub get_number-none :
    (p rest : Name) (k : ℕ) → get k rest ≡ none → get_number (length p + k) (p ++ rest) ≡ none
unfolding get_number
get_number-none p rest k e = rw (get-append p rest k, e) refl
