-- ===== src/Send/Blob.antt =====
-- `toBlobHandle`: the accessors of a body that can be read once.
use shared_ts_libs.Base.{Bool, true, false, ◌≡◌, refl, ap, List, [], ◌∷◌, map}

pub data Accessor : Type 0 where
  stream blob text array_buffer cancel : Accessor

-- What a call of an accessor does: it reads the body in its own way, or it throws.
pub data Access : Type 0 where
  reads : Accessor → Access
  already_consumed : Access

-- `guard`, with the flag `consumed` before and after.
unfoldable pub guard : Bool → Accessor → Access × Bool
guard true a = (already_consumed, true)
guard false a = (reads a, true)

-- The calls of a caller, in turn.
unfoldable pub accesses : Bool → List Accessor → List Access
accesses consumed [] = []
accesses consumed (a ∷ later) =
    let (done, consumed') = guard consumed a in done ∷ accesses consumed' later

accesses-consumed :
    (later : List Accessor) → accesses true later ≡ map (λ _. already_consumed) later
unfolding accesses guard
accesses-consumed [] = refl
accesses-consumed (a ∷ later) = ap (λ r. already_consumed ∷ r) (accesses-consumed later)

-- Of the accessors that are called on the handle of a body, the first one reads the body, and each later
-- one throws without reading it.
pub accesses-once :
    (a : Accessor) (later : List Accessor)
    → accesses false (a ∷ later) ≡ reads a ∷ map (λ _. already_consumed) later
unfolding accesses guard
accesses-once a later = ap (λ r. reads a ∷ r) (accesses-consumed later)
