-- ===== src/RuntimeStore/Ownership/Machine.antt =====
-- The laws of the machine of ownership, which hold of every store that refines it.
use tsagent.Prelude.{ℕ, String, ◌≡◌, inl, inr, false, Option, none, some, arith, eq_iff}
use tsagent.Prelude.Text.{is_empty}
use tsagent.RuntimeStore.Ownership.{
  Ownership, Move, handle, stay, create, grant, release, advance, Moves, none_yet, then_one, Lost,
  Grows,
}

Move-Lost :
    (w : String) (k : ℕ)
    → is_empty w ≡ false
    → {u v : Option Ownership} → Move u v
    → Lost w k u
    → Lost w k v
Move-Lost w k n (handle (stay v)) l = l
Move-Lost w k n (handle create) l = absurd l
Move-Lost w k n (handle (grant o x e)) l = ground arith
Move-Lost w k n (handle (release o)) (inl l) = inl l
Move-Lost w k n (handle (release o)) (inr (e, f)) = inr (e, λ h. ground (arith, eq_iff w ""))
Move-Lost w k n (advance o d e) l = l

-- A fence that is gone stays gone, whatever moves follow.
pub Moves-Lost :
    (w : String) (k : ℕ)
    → is_empty w ≡ false
    → {u v : Option Ownership} → Moves u v
    → Lost w k u
    → Lost w k v
Moves-Lost w k n none_yet l = l
Moves-Lost w k n (then_one p m) l = Move-Lost w k n m (Moves-Lost w k n p l)

-- A move in front of others
pub Moves-first : {u v w : Option Ownership} → Move u v → Moves v w → Moves u w
Moves-first m none_yet = then_one none_yet m
Moves-first m (then_one p n) = then_one (Moves-first m p) n

Grows-refl : (v : Option Ownership) → Grows v v
Grows-refl none = tt
Grows-refl (some o) = (omega arith, omega arith)

Grows-trans : (u v w : Option Ownership) → Grows u v → Grows v w → Grows u w
Grows-trans none v w g h = tt
Grows-trans (some o) (some p) (some q) (a, b) (c, d) = (omega arith, omega arith)
Grows-trans (some o) none w g h = absurd g
Grows-trans (some o) (some p) none g h = absurd h

Move-Grows : {u v : Option Ownership} → Move u v → Grows u v
Move-Grows (handle (stay v)) = Grows-refl v
Move-Grows (handle create) = tt
Move-Grows (handle (grant o w e)) = (omega arith, omega arith)
Move-Grows (handle (release o)) = (omega arith, omega arith)
Move-Grows (advance o d e) = (omega arith, omega arith)

pub Moves-Grows : {u v : Option Ownership} → Moves u v → Grows u v
Moves-Grows {u} none_yet = Grows-refl u
Moves-Grows {u} {v} (then_one {v = x} p m) = Grows-trans u x v (Moves-Grows p) (Move-Grows m)
