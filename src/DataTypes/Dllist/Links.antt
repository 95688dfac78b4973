-- ===== src/DataTypes/Dllist/Links.antt =====
-- What a list stands for: the address and the value of each node, in order.
use g_os.Common.{
  ==_refl, Bool, List, [], arith, eq_of_==, false, inl, inr, refl, true, ℕ, ◌++◌, ◌<◌, ◌==◌, ◌||◌,
  ◌∙◌, ◌∷◌, ◌≡◌, ◌≤◌, ◌⊎◌,
}
use g_os.DataTypes.Dllist.{node_limit}
use g_os.DataTypes.Dllist.Nodes.{Heap}

abbrev pub Cells : Type 0
Cells = List (ℕ × ℕ)

abbrev pub has : ℕ → Cells → Bool
has a [] = false
has a ((b, _) ∷ xs) = (a == b) || has a xs

-- The addresses are distinct.
abbrev pub NoRepeat : Cells → Type 0
NoRepeat [] = Unit
NoRepeat ((a, _) ∷ xs) = (has a xs ≡ false) × NoRepeat xs

abbrev pub values : Cells → List ℕ
values [] = []
values ((_, v) ∷ xs) = v ∷ values xs

pub record IsNode (h : Heap) (a v : ℕ) : Type 0 where
  pub live : h.live a ≡ true
  pub holds : h.val a ≡ v
  pub above : 0 < a
  pub below : a ≤ node_limit

-- From `p` the nodes `xs` lead to `q`, in both directions.
abbrev pub Links : Heap → ℕ → Cells → ℕ → Type 0
Links h p [] q = (h.next p ≡ q) × (h.prev q ≡ p)
Links h p ((a, v) ∷ xs) q = (h.next p ≡ a) × (h.prev a ≡ p) × IsNode h a v × Links h a xs q

-- The list with sentinel `s` holds `xs`.
pub record IsList (h : Heap) (s : ℕ) (xs : Cells) : Type 0 where
  pub sentinel : IsNode h s (h.val s)
  pub links : Links h s xs s
  pub outside : has s xs ≡ false
  pub distinct : NoRepeat xs

-- A node other than `p` that precedes `q` is one of the nodes between.
pub prev-mem :
    (h : Heap) (p : ℕ) (xs : Cells) (q : ℕ)
    → Links h p xs q
    → (h.prev q ≡ p) ⊎ (has (h.prev q) xs ≡ true)
prev-mem h p [] q l = inl l.1
prev-mem h p ((a, v) ∷ xs) q l = inr (ground (arith, prev-mem h a xs q l.3, ==_refl a))

pub next-mem :
    (h : Heap) (p : ℕ) (xs : Cells) (q : ℕ)
    → Links h p xs q
    → (h.next p ≡ q) ⊎ (has (h.next p) xs ≡ true)
next-mem h p [] q l = inl l.0
next-mem h p ((a, v) ∷ xs) q l = inr (ground (arith, ==_refl a))

pub live_of_has :
    (h : Heap) (p : ℕ) (xs : Cells) (q a : ℕ)
    → Links h p xs q
    → has a xs ≡ true
    → (h.live a ≡ true) × (0 < a) × (a ≤ node_limit)
live_of_has h p [] q a l m = cc
live_of_has h p ((b, v) ∷ xs) q a l m = ground (arith, live_of_has h b xs q a l.3, eq_of_== a b)

-- Nodes that a change of the heap spares stay linked.
pub Links-frame :
    (h g : Heap) (p : ℕ) (xs : Cells) (q : ℕ)
    → Links h p xs q
    → ((a : ℕ) → ((a == p) || has a xs) ≡ true → g.next a ≡ h.next a)
    → ((a : ℕ) → ((a == q) || has a xs) ≡ true → g.prev a ≡ h.prev a)
    → ((a : ℕ) → has a xs ≡ true → (g.live a ≡ h.live a) × (g.val a ≡ h.val a))
    → Links g p xs q
Links-frame h g p [] q l n r k =
    (n p (ground (arith, ==_refl p)) ∙ l.0, r q (ground (arith, ==_refl q)) ∙ l.1)
Links-frame h g p ((a, v) ∷ xs) q l n r k =
    let here : has a ((a, v) ∷ xs) ≡ true = ground (arith, ==_refl a) in
    (
      n p (ground (arith, ==_refl p)) ∙ l.0,
      r a (ground (arith, here)) ∙ l.1,
      record {
        live = (k a here).0 ∙ l.2.live;
        holds = (k a here).1 ∙ l.2.holds;
        above = l.2.above;
        below = l.2.below;
      },
      Links-frame h g a xs q l.3 (λ b m. n b (ground arith)) (λ b m. r b (ground arith))
          (λ b m. k b (ground arith)),
    )

pub Links-split :
    (h : Heap) (p : ℕ) (ys : Cells) (n w : ℕ) (zs : Cells) (q : ℕ)
    → Links h p (ys ++ (n, w) ∷ zs) q
    → Links h p ys n × IsNode h n w × Links h n zs q
Links-split h p [] n w zs q l = ((l.0, l.1), l.2, l.3)
Links-split h p ((a, v) ∷ ys) n w zs q l =
    let (before, here, after) = Links-split h a ys n w zs q l.3 in
    ((l.0, l.1, l.2, before), here, after)

pub Links-join :
    (h : Heap) (p : ℕ) (ys : Cells) (n w : ℕ) (zs : Cells) (q : ℕ)
    → Links h p ys n
    → IsNode h n w
    → Links h n zs q
    → Links h p (ys ++ (n, w) ∷ zs) q
Links-join h p [] n w zs q before here after = (before.0, before.1, here, after)
Links-join h p ((a, v) ∷ ys) n w zs q before here after =
    (before.0, before.1, before.2, Links-join h a ys n w zs q before.3 here after)

pub has-append : (a : ℕ) (xs ys : Cells) → has a (xs ++ ys) ≡ (has a xs || has a ys)
has-append a [] ys = refl
has-append a ((b, _) ∷ xs) ys = ground (arith, has-append a xs ys)

-- The parts of a list whose addresses are distinct.
pub NoRepeat-split :
    (ys : Cells) (n w : ℕ) (zs : Cells)
    → NoRepeat (ys ++ (n, w) ∷ zs)
    → NoRepeat (ys ++ zs)
      × NoRepeat ys
      × NoRepeat zs
      × (has n ys ≡ false)
      × (has n zs ≡ false)
      × ((a : ℕ) → has a ys ≡ true → has a zs ≡ false)
NoRepeat-split [] n w zs u = (u.1, tt, u.1, refl, u.0, λ a m. cc)
NoRepeat-split ((b, v) ∷ ys) n w zs u =
    let (whole, front, back, out, off, apart) = NoRepeat-split ys n w zs u.1 in
    let far = has-append b ys ((n, w) ∷ zs) in
    let near = has-append b ys zs in
    (
      (ground arith, whole),
      (ground arith, front),
      back,
      ground arith,
      off,
      λ a m. ground (arith, apart a, eq_of_== a b),
    )

pub NoRepeat-insert :
    (ys zs : Cells) (a v : ℕ)
    → NoRepeat (ys ++ zs)
    → has a (ys ++ zs) ≡ false
    → NoRepeat (ys ++ (a, v) ∷ zs)
NoRepeat-insert [] zs a v u out = (out, u)
NoRepeat-insert ((b, w) ∷ ys) zs a v u out = (
  ground (arith, has-append b ys zs, has-append b ys ((a, v) ∷ zs), eq_of_== b a, ==_refl a),
  NoRepeat-insert ys zs a v u.1 (ground arith),
)
