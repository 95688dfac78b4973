-- ===== src/Memory/Buddy/Merged.antt =====
-- Rows in which no block is split into two halves that are both free.
use g_os.Common.{Bool, List, [], arith, false, refl, suc, true, zero, ℕ, ◌&&◌, ◌++◌, ◌↔◌, ◌∷◌, ◌≡◌}
use g_os.Memory.Buddy.Tree.{Tree, available, lent, split}
use g_os.Memory.Buddy.Frames.{Frames, lower, plug, top, upper}
use g_os.Memory.Buddy.Split.{carve}

abbrev pub is_available : Tree → Bool
is_available available = true
is_available lent = false
is_available (split l r) = false

unfoldable pub IsMerged : Tree → Type 0
IsMerged available = Unit
IsMerged lent = Unit
IsMerged (split l r) = ((is_available l && is_available r) ≡ false) × IsMerged l × IsMerged r

unfoldable pub IsMergedRow : List Tree → Type 0
IsMergedRow [] = Unit
IsMergedRow (t ∷ ts) = IsMerged t × IsMergedRow ts

-- The same of all that is around a place, apart from the place and its neighbour.
unfoldable pub MergedAround : {i a : ℕ} → Frames i a → Type 0
MergedAround (top e before after e') = IsMergedRow before × IsMergedRow after
MergedAround (lower q e r f) = IsMerged r × MergedAround f
MergedAround (upper p q e e' l f) = IsMerged l × MergedAround f

-- Whether the neighbour of the place is free; a block of the largest size has none.
abbrev pub is_neighbour_free : {i a : ℕ} → Frames i a → Bool
is_neighbour_free (top e before after e') = false
is_neighbour_free (lower q e r f) = is_available r
is_neighbour_free (upper p q e e' l f) = is_available l

IsMergedRow-append :
    (before : List Tree) (t : Tree) (after : List Tree)
    → IsMergedRow (before ++ t ∷ after) ↔ (IsMerged t × IsMergedRow before × IsMergedRow after)
unfolding IsMergedRow
IsMergedRow-append [] t after = ((λ m. (m.0, tt, m.1)), (λ m. (m.0, m.2)))
IsMergedRow-append (x ∷ before) t after =
    let rest = IsMergedRow-append before t after in
    ((λ m. let n = rest.0 m.1 in (n.0, (m.0, n.1), n.2)), (λ m. (m.1.0, rest.1 (m.0, m.1.1, m.2))))

and_swap : (x y : Bool) → (x && y) ≡ false → (y && x) ≡ false
and_swap x y h = ground arith

pub plug-IsMerged :
    {i a : ℕ} (f : Frames i a) (t : Tree)
    → MergedAround f
    → IsMerged t
    → (is_available t && is_neighbour_free f) ≡ false
    → IsMergedRow (plug f t)
unfolding plug MergedAround IsMerged
plug-IsMerged (top e before after e') t around m apart =
    (IsMergedRow-append before t after).1 (m, around.0, around.1)
plug-IsMerged (lower q e r f) t around m apart =
    plug-IsMerged f (split t r) around.1 (apart, m, around.0) refl
plug-IsMerged (upper p q e e' l f) t around m apart =
    plug-IsMerged f (split l t) around.1
      (and_swap (is_available t) (is_available l) apart, around.0, m) refl

pub MergedAround-unplug :
    {i a : ℕ} (f : Frames i a) (t : Tree) → IsMergedRow (plug f t) → MergedAround f × IsMerged t
unfolding plug MergedAround IsMerged
MergedAround-unplug (top e before after e') t m =
    let n = (IsMergedRow-append before t after).0 m in ((n.1, n.2), n.0)
MergedAround-unplug (lower q e r f) t m =
    let outer = MergedAround-unplug f (split t r) m in ((outer.1.2, outer.0), outer.1.1)
MergedAround-unplug (upper p q e e' l f) t m =
    let outer = MergedAround-unplug f (split l t) m in ((outer.1.1, outer.0), outer.1.2)

carve-lem : (d : ℕ) → IsMerged (carve d) × (is_available (carve d) ≡ false)
unfolding carve IsMerged
carve-lem zero = (tt, refl)
carve-lem (suc d) = let (m, apart) = carve-lem d in ((rw apart refl, m, tt), refl)

-- Splitting a free block for a part that is lent leaves no two free halves.
pub carve-IsMerged :
    {i a : ℕ} (f : Frames i a) (d : ℕ)
    → IsMergedRow (plug f available)
    → IsMergedRow (plug f (carve d))
carve-IsMerged f d m =
    let (merged, apart) = carve-lem d in
    plug-IsMerged f (carve d) (MergedAround-unplug f available m).0 merged (rw apart refl)
