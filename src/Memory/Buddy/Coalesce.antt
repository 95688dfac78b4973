-- ===== src/Memory/Buddy/Coalesce.antt =====
-- The loop of `buddy_free_page`: while the neighbour is free, the two become one block.
use g_os.Common.{
  ==_of_ne, ==_refl, Bool, arith, false, inl, inr, none, refl, some, subst, suc, sym, true, zero, ℕ,
  ◌&&◌, ◌+◌, ◌<◌, ◌==◌, ◌≡◌, ◌≢◌, ◌≤◌,
}
use Prim.Native.Nat.{bit_and, bit_xor}
use g_os.Memory.Buddy.{BuddyDesc, Coalesced, can_coalesce, coalesce, merge, pages}
use g_os.Memory.Buddy.Bits.{and-lower, and-upper, and_self, entry, even, xor-lower, xor-upper}
use g_os.Memory.Buddy.Tree.{Marked, Tree, available, hit, lent, pages_pos, split}
use g_os.Memory.Buddy.Frames.{
  AgreesOutside, Frames, MarkedAround, MarkedAround-Agrees, found_around, lower, plug, top, upper,
}
use g_os.Memory.Buddy.Merged.{MergedAround, is_available, is_neighbour_free}
use g_os.Memory.Buddy.Listed.{count, count-delete_node}

-- A block that is split starts with a smaller one.
split-not-free :
    (s : BuddyDesc) (t : Tree) (j a i : ℕ)
    → Marked s t j a
    → j < i
    → i < 10
    → (bit_and (s.order a) 15 == i && bit_and (s.order a) 16 == 0) ≡ false
unfolding Marked
split-not-free s available j a i m h h' = rw (m.0, (entry j (omega arith)).0) (ground arith)
split-not-free s lent j a i m h h' = rw (m, (entry j (omega arith)).3) (ground arith)
split-not-free s (split l r) zero a i m h h' = absurd m
split-not-free s (split l r) (suc j) a i m h h' = split-not-free s l j a i m.0 (omega arith) h'

and_false : (x y z : Bool) → (x && y) ≡ false → (x && y && z) ≡ false
and_false x y z h = ground arith

-- The test of the loop tells whether the neighbour is a free block of the same order.
can_coalesce-lem :
    (s : BuddyDesc) (t : Tree) (i a : ℕ)
    → Marked s t i a
    → i < 10
    → can_coalesce s a i ≡ is_available t
unfolding Marked
can_coalesce-lem s available i a (o, r) h = elim r [
  | inl big ↦ absurd (omega arith)
  | inr ref ↦ rw (o, ref, (entry i (omega arith)).0, (entry i (omega arith)).1, ==_refl i) refl
]
can_coalesce-lem s lent i a m h =
    rw (m, (entry i (omega arith)).3, (entry i (omega arith)).4, ==_refl i) refl
can_coalesce-lem s (split l r) zero a m h = absurd m
can_coalesce-lem s (split l r) (suc i) a m h =
    and_false (bit_and (s.order a) 15 == suc i) (bit_and (s.order a) 16 == 0)
      (elim (s.page_list_ref a) [ none ↦ false | some _ ↦ true ])
      (split-not-free s l i a (suc i) m.0 (omega arith) h)

-- What the loop has found: a place with the block, not in a list, and all else marked and listed.
pub record IsPending (s : BuddyDesc) {i a : ℕ} (f : Frames i a) : Type 0 where
  pub marked : MarkedAround s f
  pub listed : (k b : ℕ) → count b (s.page_list k) ≡ found_around false f k b

module _ (s : BuddyDesc) (a a' low i : ℕ)
    (ref : s.page_list_ref a' ≡ some (record { list = i; val = a' }))
    (lowest : bit_and (bit_and a a') a' ≡ low) where
  merge-Agrees :
      (x : ℕ)
      → x ≢ a'
      → x ≢ low
      → ((merge s a a').order x ≡ s.order x) × ((merge s a a').page_list_ref x ≡ s.page_list_ref x)
  merge-Agrees x ne ne' = rw (ref, lowest, ==_of_ne x a' ne, ==_of_ne x low ne') (refl, refl)

  merge-listed :
      (k b : ℕ)
      → 0 < count a' (s.page_list i)
      → count b ((merge s a a').page_list k) + hit k b i a' ≡ count b (s.page_list k)
  merge-listed k b free = rw ref (count-delete_node s i a' k b free)

one_of_hit : (i a n m : ℕ) → n ≡ hit i a i a + m → 0 < n
one_of_hit i a n m e = ground arith

-- One round: the free neighbour is taken into the block.
merge-IsPending :
    (s : BuddyDesc) (a : ℕ) {i p : ℕ} (a' : ℕ) (f : Frames (suc i) p)
    → i < 10
    → bit_and (bit_and a a') a' ≡ p
    → p ≤ a'
    → a' < p + pages (suc i)
    → Marked s available i a'
    → MarkedAround s f
    → ((k b : ℕ) → count b (s.page_list k) ≡ hit k b i a' + found_around false f k b)
    → IsPending (merge s a a') f
unfolding Marked AgreesOutside
merge-IsPending s a {i} {p} a' f small low l l' (o, r) around listed =
    let ref : s.page_list_ref a' ≡ some (record { list = i; val = a' }) = elim r [
      | inl h ↦ absurd (omega arith)
      | inr h ↦ h
    ] in
    let listed_one : 0 < count a' (s.page_list i) =
      one_of_hit i a' (count a' (s.page_list i)) (found_around false f i a') (listed i a') in
    record {
      marked =
          MarkedAround-Agrees s (merge s a a') f
            (λ x out.
              merge-Agrees s a a' p i ref low x
                (elim out [ inl h ↦ (λ e. omega arith) | inr h ↦ (λ e. omega arith) ])
                (elim out [
                  | inl h ↦ (λ e. omega arith)
                  | inr h ↦ (λ e. omega (arith, pages_pos (suc i)))
                ]))
            around;
      listed = λ k b. omega (arith, merge-listed s a a' p i ref low k b listed_one, listed k b);
    }

-- The loop ends with a pending block whose neighbour is not free. The allocated blocks around it are
-- what they were, and of what is around the block before, nothing but free neighbours has gone.
pub record Ends (c : Coalesced) {i a : ℕ} (before : Frames i a) : Type 0 where
  pub frames : Frames c.free_page_order c.free_page_addr
  pub pending : IsPending c.buddy frames
  pub lent_around : (k b : ℕ) → found_around true frames k b ≡ found_around true before k b
  pub apart : is_neighbour_free frames ≡ false
  pub merged : MergedAround before → MergedAround frames

stops :
    (s : BuddyDesc) (i a a' n : ℕ) (f : Frames i a)
    → bit_xor a (pages i) ≡ a'
    → can_coalesce s a' i ≡ false
    → is_neighbour_free f ≡ false
    → IsPending s f
    → Ends (coalesce s a i (suc n)) f
unfolding coalesce
stops s i a a' n f neighbour taken apart p =
    let ends : coalesce s a i (suc n)
        ≡ record { buddy = s; free_page_addr = a; free_page_order = i } =
      rw (coalesce, neighbour, taken) refl in
    let here : Ends (record { buddy = s; free_page_addr = a; free_page_order = i }) f = record {
      frames = f;
      pending = p;
      lent_around = λ k b. refl;
      apart = apart;
      merged = λ m. m;
    } in
    subst (λ c. Ends c f) (sym ends) here

goes_on :
    (s : BuddyDesc) (i a a' low n : ℕ) (f : Frames i a)
    → bit_xor a (pages i) ≡ a'
    → bit_and (bit_and a a') a' ≡ low
    → can_coalesce s a' i ≡ true
    → Ends (coalesce (merge s a a') low (suc i) n) f
    → Ends (coalesce s a i (suc n)) f
unfolding coalesce
goes_on s i a a' low n f neighbour lowest free =
    let step : coalesce s a i (suc n) ≡ coalesce (merge s a a') low (suc i) n =
      rw (coalesce, neighbour, free, lowest) refl in
    subst (λ c. Ends c f) (sym step)

-- The neighbour and the lower of the two, seen from either of them.
from_lower :
    (i a q : ℕ)
    → a ≡ even q i
    → (bit_xor a (pages i) ≡ a + pages i) × (bit_and (bit_and a (a + pages i)) (a + pages i) ≡ a)
from_lower i a q e = rw e (xor-lower i q, rw (and-lower i q) (and-lower i q))

from_upper :
    (i a p q : ℕ)
    → p ≡ even q i
    → a ≡ p + pages i
    → (bit_xor a (pages i) ≡ p) × (bit_and (bit_and a p) p ≡ p)
from_upper i a p q e e' = rw (e', e) (xor-upper i q, rw (and-upper i q) (and_self (even q i)))

pub Frames-small : {i a : ℕ} → Frames i a → i ≤ 10
Frames-small (top e before after e') = omega arith
Frames-small (lower q e r f) = omega (arith, Frames-small f)
Frames-small (upper p q e e' l f) = omega (arith, Frames-small f)

-- A block of the largest size has no neighbour.
top-alone : {i a : ℕ} (f : Frames i a) → i ≡ 10 → is_neighbour_free f ≡ false
top-alone (top e before after e') at = refl
top-alone (lower q e r f) at = absurd (omega (arith, Frames-small f))
top-alone (upper p q e e' l f) at = absurd (omega (arith, Frames-small f))

pub coalesce-Ends :
    (n : ℕ) (s : BuddyDesc) (i a : ℕ) (f : Frames i a)
    → i + n ≡ 10
    → IsPending s f
    → Ends (coalesce s a i n) f
unfolding coalesce MarkedAround MergedAround found_around plug pages
coalesce-Ends zero s i a f e p = record {
  frames = f;
  pending = p;
  lent_around = λ k b. refl;
  apart = top-alone f (omega arith);
  merged = λ m. m;
}
coalesce-Ends (suc n) s i a (top t before after e') e p = absurd (omega arith)
coalesce-Ends (suc n) s i a (lower q al available f) e p =
    let a' = a + pages i in
    let (x, y) = from_lower i a q al in
    let merged =
      merge-IsPending s a a' f (omega arith) y (omega arith) (omega (arith, pages_pos i)) p.marked.0
        p.marked.1 p.listed in
    let ends = coalesce-Ends n (merge s a a') (suc i) a f (omega arith) merged in
    goes_on s i a a' a n (lower q al available f) x y
      (can_coalesce-lem s available i a' p.marked.0 (omega arith))
      (record {
        frames = ends.frames;
        pending = ends.pending;
        lent_around = λ k b. omega (arith, ends.lent_around k b);
        apart = ends.apart;
        merged = λ m. ends.merged m.1;
      })
coalesce-Ends (suc n) s i a (lower q al lent f) e p =
    stops s i a (a + pages i) n (lower q al lent f) (from_lower i a q al).0
      (can_coalesce-lem s lent i (a + pages i) p.marked.0 (omega arith)) refl p
coalesce-Ends (suc n) s i a (lower q al (split l r) f) e p =
    stops s i a (a + pages i) n (lower q al (split l r) f) (from_lower i a q al).0
      (can_coalesce-lem s (split l r) i (a + pages i) p.marked.0 (omega arith)) refl p
coalesce-Ends (suc n) s i a (upper a' q al al' available f) e p =
    let (x, y) = from_upper i a a' q al al' in
    let merged =
      merge-IsPending s a a' f (omega arith) y (omega arith) (omega (arith, pages_pos i)) p.marked.0
        p.marked.1 p.listed in
    let ends = coalesce-Ends n (merge s a a') (suc i) a' f (omega arith) merged in
    goes_on s i a a' a' n (upper a' q al al' available f) x y
      (can_coalesce-lem s available i a' p.marked.0 (omega arith))
      (record {
        frames = ends.frames;
        pending = ends.pending;
        lent_around = λ k b. omega (arith, ends.lent_around k b);
        apart = ends.apart;
        merged = λ m. ends.merged m.1;
      })
coalesce-Ends (suc n) s i a (upper a' q al al' lent f) e p =
    stops s i a a' n (upper a' q al al' lent f) (from_upper i a a' q al al').0
      (can_coalesce-lem s lent i a' p.marked.0 (omega arith)) refl p
coalesce-Ends (suc n) s i a (upper a' q al al' (split l r) f) e p =
    stops s i a a' n (upper a' q al al' (split l r) f) (from_upper i a a' q al al').0
      (can_coalesce-lem s (split l r) i a' p.marked.0 (omega arith)) refl p
