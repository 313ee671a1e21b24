-- ===== src/Forwarding/Progress.antt =====
-- `deliverCapsule` (lltc-strategy-service-sublayer-forwarding.cpp) returns: the only null pointer
-- that it may dereference is the FIB entry of a bypassed path.
use drtp.Base.{ℕ, ◌≡◌, refl, Bool, true, false, Option, none, some, List, ◌>>=◌, if◌then◌else◌}
use drtp.Messages.{Data}
use drtp.Fs.{
  LltcFibEntry, ForwardingStateForRsg, ForwardingStateCollection, lookup_forwarding_entry,
}
use drtp.State.{State, PitEntry}
use drtp.Forwarding.{down_path, deliver_on_rsp, deliver_capsule}

-- While the downstream path is bypassed, there is an entry for the path that is taken instead.
abbrev pub CanBypass : ForwardingStateCollection → ℕ → ForwardingStateForRsg → Type 0
CanBypass coll rsg_id fs =
    fs.is_down_path_in_rsp_state ≡ true
    → (fe : LltcFibEntry) × (lookup_forwarding_entry coll rsg_id (down_path fs) 0 ≡ some fe)

abbrev pub Returns : Option State → Type 0
Returns m = (σ : State) × (m ≡ some σ)

pub either_returns :
    (b : Bool) (m : Option State) (τ : State)
    → (b ≡ true → Returns m)
    → Returns (if b then m else some τ)
either_returns true m τ h = h refl
either_returns false m τ h = (τ, refl)

pub both_return :
    (b : Bool) (m m' : Option State) → Returns m → Returns m' → Returns (if b then m else m')
both_return true m m' p q = p
both_return false m m' p q = q

pub then_returns :
    (m : Option State) (f : State → State) → Returns m → Returns (m >>= λ σ. some (f σ))
then_returns m f (σ, e) = (f σ, rw e refl)

found_returns :
    (bypass : Data) (rsg_id : ℕ) (fs : ForwardingStateForRsg) (σ : State)
    (found : Option LltcFibEntry) {fe : LltcFibEntry}
    → found ≡ some fe
    → Returns (deliver_on_rsp bypass rsg_id fs σ found)
unfolding deliver_on_rsp
found_returns bypass rsg_id fs σ none e = absurd (let f : ⊥ = cc in f)
found_returns bypass rsg_id fs σ (some fe) e = (_, refl)

pub deliver_capsule-Returns :
    (pit : PitEntry) (packet : Data) (content : List ℕ) (data_id rsg_id : ℕ)
    (fs : ForwardingStateForRsg) (σ : State)
    → CanBypass σ.env.coll rsg_id fs
    → Returns (deliver_capsule pit packet content data_id rsg_id fs σ)
unfolding deliver_capsule deliver_on_rsp
deliver_capsule-Returns pit packet content data_id rsg_id fs σ h =
    either_returns fs.is_down_path_in_rsp_state _ _
      (λ e. let (fe, hit) = h e in found_returns _ rsg_id fs σ _ hit)
