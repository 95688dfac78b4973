-- ===== src/DataTypes/Queue/Fifo.antt =====
-- A `t_queue` gives back what was put in, oldest first.
use mathlib.Core.List.{reverse-append}
use g_os.Common.{
  List, [], ap, append-nil, arith, false, inl, inr, length, length-append, refl, reverse, sym, ℕ,
  ◌++◌, ◌==◌, ◌∙◌, ◌∷◌, ◌≡◌, ◌⊎◌,
}
use g_os.DataTypes.Dllist.{ll_last}
use g_os.DataTypes.Dllist.Nodes.{Heap, ok}
use g_os.DataTypes.Dllist.Links.{Cells, IsList, Links-split, values}
use g_os.DataTypes.Dllist.Insert.{IsFree, prepend-IsList}
use g_os.DataTypes.Dllist.Delete.{delete-IsList}
use g_os.DataTypes.Dllist.Walk.{empty-cells, new-IsList}
use g_os.DataTypes.Queue.{dequeue, enqueue, new_queue}

-- The values waiting, oldest first; the list holds them newest first.
pub record IsQueue (h : Heap) (s : ℕ) (waiting : List ℕ) : Type 0 where
  pub cells : Cells
  pub ring : IsList h s cells
  pub order : waiting ≡ reverse (values cells)

-- The specification of `dequeue`: what it returns, and what still waits.
abbrev pub front : List ℕ → ℕ
front [] = 0
front (v ∷ vs) = v

abbrev pub rest : List ℕ → List ℕ
rest [] = []
rest (v ∷ vs) = vs

values-append : (xs ys : Cells) → values (xs ++ ys) ≡ values xs ++ values ys
values-append [] ys = refl
values-append ((a, v) ∷ xs) ys = ap (λ l. v ∷ l) (values-append xs ys)

Cells-cases :
    (xs : Cells) → (xs ≡ []) ⊎ ((ys : Cells) × (n : ℕ) × (v : ℕ) × (xs ≡ ys ++ (n, v) ∷ []))
Cells-cases [] = inl refl
Cells-cases ((a, v) ∷ xs) = elim (Cells-cases xs) [
  | inl e ↦ inr ([], a, v, ap (λ l. (a, v) ∷ l) e)
  | inr (ys, n, w, e) ↦ inr ((a, v) ∷ ys, n, w, ap (λ l. (a, v) ∷ l) e)
]

-- A new queue is empty.
pub new-IsQueue :
    (h : Heap) (fresh : ℕ)
    → IsFree h fresh
    → (h' : Heap) × (new_queue fresh h ≡ ok fresh h') × IsQueue h' fresh []
unfolding new_queue
new-IsQueue h fresh free =
    let (h', e, is) = new-IsList h fresh free in
    (h', e, record { cells = []; ring = is; order = refl })

-- `enqueue` puts its datum behind all that wait.
pub enqueue-IsQueue :
    (h : Heap) (s fresh v : ℕ) (q : List ℕ)
    → IsFree h fresh
    → IsQueue h s q
    → (h' : Heap) × (enqueue fresh s v h ≡ ok tt h') × IsQueue h' s (q ++ v ∷ [])
unfolding enqueue
enqueue-IsQueue h s fresh v q free is =
    let (h', e, is') = prepend-IsList h s fresh v free is.cells is.ring in
    (
      h',
      rw e,
      record {
        cells = (fresh, v) ∷ is.cells;
        ring = is';
        order = ap (λ l. l ++ v ∷ []) is.order ∙ sym (reverse-append (v ∷ []) (values is.cells));
      },
    )

dequeue_nil : (h : Heap) (s : ℕ) → IsList h s [] → dequeue s h ≡ ok 0 h
unfolding dequeue
dequeue_nil h s is = rw (empty-cells s [] h is)

dequeue_snoc :
    (h : Heap) (s n v : ℕ) (ys : Cells)
    → IsList h s (ys ++ (n, v) ∷ [])
    → (h' : Heap) × (dequeue s h ≡ ok v h') × IsList h' s ys
unfolding dequeue ll_last
dequeue_snoc h s n v ys is =
    let (_, node, after) = Links-split h s ys n v [] s is.links in
    let (h', e, is', gone) = delete-IsList h s ys n v [] is in
    let some_node : (length (ys ++ (n, v) ∷ []) == 0) ≡ false =
      ground (arith, length-append ys ((n, v) ∷ [])) in
    (
      h',
      rw (
        empty-cells s (ys ++ (n, v) ∷ []) h is,
        some_node,
        is.sentinel.live,
        after.1,
        node.live,
        node.holds,
        e,
      ),
      rw append-nil at is',
    )

-- `dequeue` returns what has waited longest, or NULL if nothing waits, and leaves the rest waiting.
pub dequeue-IsQueue :
    (h : Heap) (s : ℕ) (q : List ℕ)
    → IsQueue h s q
    → (h' : Heap) × (dequeue s h ≡ ok (front q) h') × IsQueue h' s (rest q)
dequeue-IsQueue h s q is = elim (Cells-cases is.cells) [
  | inl none_left ↦
      let none_waits : q ≡ [] = is.order ∙ ap (λ l. reverse (values l)) none_left in
      (
        h,
        rw none_waits (dequeue_nil h s (rw none_left at is.ring)),
        rw none_waits (record { cells = []; ring = rw none_left at is.ring; order = refl }),
      )
  | inr (ys, n, v, e) ↦
      let (h', d, is') = dequeue_snoc h s n v ys (rw e at is.ring) in
      let oldest : q ≡ v ∷ reverse (values ys) =
        is.order
        ∙ ap (λ l. reverse (values l)) e
        ∙ ap reverse (values-append ys ((n, v) ∷ []))
        ∙ reverse-append (values ys) (v ∷ []) in
      (h', rw oldest d, rw oldest (record { cells = ys; ring = is'; order = refl }))
]
