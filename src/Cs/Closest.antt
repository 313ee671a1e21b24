-- ===== src/Cs/Closest.antt =====
-- What `lookupInCs` (lltc-strategy-service-sublayer-cs.cpp) finds.
use drtp.Base.{
  ℕ, ◌≤◌, ◌<◌, ◌≡◌, refl, ◌∙◌, ◌≢◌, true, false, ◌⊎◌, inl, inr, none, some, List, [], ◌∷◌, String,
  arith, Option-cases,
}
use drtp.Base.Maps.{is_some}
use drtp.Messages.{Data}
use drtp.Fs.{uint_max}
use drtp.State.{Cs}
use drtp.Cs.{
  names_capsule, find_in, find_capsule, closer, closest_in, find_closest_data_name_in_cs,
  lookup_in_cs,
}

-- The loop ends at the least of the start and the IDs above `id` that the table holds.
closest_in-le :
    (prefix : String) (id : ℕ) (ds : List Data) (least : ℕ) → closest_in prefix id ds least ≤ least
unfolding closest_in closer
closest_in-le prefix id [] least = omega arith
closest_in-le prefix id (d ∷ ds) least =
    ground (arith, closest_in-le prefix id ds (closer prefix id d least))

pub closest_in-least :
    (prefix : String) (id x : ℕ) (ds : List Data) (least : ℕ) {found : Data}
    → find_in prefix x ds ≡ some found
    → id < x
    → closest_in prefix id ds least ≤ x
unfolding closest_in find_in names_capsule closer
closest_in-least prefix id x [] least {found} e h = absurd (ground arith)
closest_in-least prefix id x (d ∷ ds) least {found} e h = ground (
  arith,
  closest_in-le prefix id ds (closer prefix id d least),
  closest_in-least prefix id x ds (closer prefix id d least) {found = found},
)

-- One round keeps the least ID, or takes that of the entry.
closer_cases :
    (prefix : String) (id : ℕ) (d : Data) (least : ℕ)
    → (closer prefix id d least ≡ least)
      ⊎ ((names_capsule prefix (closer prefix id d least) d ≡ true)
          × (id < closer prefix id d least)
          × (closer prefix id d least < least))
unfolding closer names_capsule
closer_cases prefix id d least = ground arith

-- The loop's result is the start, or the ID, above `id`, of an entry.
pub closest_in-found :
    (prefix : String) (id : ℕ) (ds : List Data) (least : ℕ)
    → (closest_in prefix id ds least ≡ least)
      ⊎ ((is_some (find_in prefix (closest_in prefix id ds least) ds) ≡ true)
          × (id < closest_in prefix id ds least)
          × (closest_in prefix id ds least < least))
unfolding closest_in find_in
closest_in-found prefix id [] least = inl refl
closest_in-found prefix id (d ∷ ds) least =
    let next = closer prefix id d least in
    elim (closest_in-found prefix id ds next) [
      | inr (f, above, below) ↦
          inr (shown f, above, omega (arith, closest_in-le prefix id (d ∷ []) least, smaller))
      | inl e ↦ elim (closer_cases prefix id d least) [
        | inl same ↦ inl (e ∙ same)
        | inr (named, above, below) ↦ inr (rw (e, named), rw e above, rw e below)
      ]
    ]
  where
    smaller : closer prefix id d least ≤ least
    smaller = ground (arith, closer_cases prefix id d least)

    shown :
        is_some (find_in prefix (closest_in prefix id ds (closer prefix id d least)) ds) ≡ true
        → is_some (find_in prefix (closest_in prefix id ds (closer prefix id d least)) (d ∷ ds))
          ≡ true
    shown f = ground arith

-- In a content store that serves what it holds, where the capsule itself is not stored: a lookup that is
-- not exact finds the capsule with the least stored ID above the requested one, and nothing only if no
-- such capsule is stored below UINT_MAX.
pub lookup_in_cs-closest :
    (cs : Cs) (prefix : String) (id : ℕ)
    → find_capsule cs prefix id ≡ none
    → cs.should_serve ≡ true
    → 0 < cs.limit
    → ((lookup_in_cs cs prefix id false ≡ some (0, none))
        × ((y : ℕ) (d : Data) → id < y → y < uint_max → find_capsule cs prefix y ≢ some d))
      ⊎ ((x : ℕ) × (found : Data) × (lookup_in_cs cs prefix id false ≡ some (x, some found))
          × (find_capsule cs prefix x ≡ some found)
          × (id < x)
          × ((y : ℕ) (d : Data) → id < y → find_capsule cs prefix y ≡ some d → x ≤ y))
unfolding lookup_in_cs find_closest_data_name_in_cs find_capsule
lookup_in_cs-closest cs prefix id missing serves limit =
    elim (closest_in-found prefix id cs.table uint_max) [
      | inl e ↦ inl (
        ground arith,
        λ y d above below hit.
            absurd (
              omega (arith, closest_in-least prefix id y cs.table uint_max (stored y d hit) above)),
      )
      | inr (f, above, below) ↦ elim (Option-cases (find_in prefix closest cs.table)) [
        | inl gone ↦ absurd (let e : ⊥ = ground arith in e)
        | inr (found, at) ↦ inr (
          closest,
          found,
          ground arith,
          ground arith,
          above,
          λ y d above hit. closest_in-least prefix id y cs.table uint_max (stored y d hit) above,
        )
      ]
    ]
  where
    closest : ℕ
    closest = closest_in prefix id cs.table uint_max

    stored :
        (y : ℕ) (d : Data) → find_capsule cs prefix y ≡ some d → find_in prefix y cs.table ≡ some d
    stored y d hit = ground arith
