-- ===== src/DataTypes/Dllist/Nodes.antt =====
-- A heap of `t_llist_node`s, and commands that read and write it.
use g_os.Common.{Bool, false, if◌then◌else◌, true, ℕ, ◌==◌}

-- `live` says which addresses hold a node that has not been freed.
pub record Heap : Type 0 where
  pub live : ℕ → Bool
  pub next : ℕ → ℕ
  pub prev : ℕ → ℕ
  pub val : ℕ → ℕ

-- `panics` is a call of `panic`, `faults` an access to what is no live node, and `hangs` a loop whose
-- fuel ran out.
pub data Run (A : Type 0) : Type 0 where
  ok : A → Heap → Run A
  panics : Run A
  faults : Run A
  hangs : Run A

abbrev pub Cmd : Type 0 → Type 0
Cmd A = Heap → Run A

abbrev pub pure : {A : Type 0} → A → Cmd A
pure = ok

module _ {A B : Type 0} where
  -- A command goes on only after one that has ended well.
  abbrev pub and_then : (A → Cmd B) → Run A → Run B
  and_then next panics = panics
  and_then next faults = faults
  and_then next hangs = hangs
  and_then next (ok a heap) = next a heap

  infixl 5 ◌>>◌ ◌>>=◌
  abbrev pub ◌>>=◌ : Cmd A → (A → Cmd B) → Cmd B
  first >>= next = λ heap. and_then next (first heap)

  abbrev pub ◌>>◌ : Cmd A → Cmd B → Cmd B
  first >> second = first >>= (λ a. second)

abbrev pub update {ℓ} : {A : Type ℓ} → (ℕ → A) → ℕ → A → ℕ → A
update f a v x = if a == x then v else f x

abbrev pub get_next : ℕ → Cmd ℕ
get_next a h = if h.live a then ok (h.next a) h else faults

abbrev pub get_prev : ℕ → Cmd ℕ
get_prev a h = if h.live a then ok (h.prev a) h else faults

abbrev pub get_val : ℕ → Cmd ℕ
get_val a h = if h.live a then ok (h.val a) h else faults

abbrev pub set_next : ℕ → ℕ → Cmd (Unit {0})
set_next a n h = if h.live a then ok tt (record h { next = update h.next a n }) else faults

abbrev pub set_prev : ℕ → ℕ → Cmd (Unit {0})
set_prev a p h = if h.live a then ok tt (record h { prev = update h.prev a p }) else faults

-- `kmalloc` of a node at `a`, and its three fields written.
abbrev pub store : (a next prev val : ℕ) → Cmd (Unit {0})
store a n p v h = ok tt (record {
  live = update h.live a true;
  next = update h.next a n;
  prev = update h.prev a p;
  val = update h.val a v;
})

abbrev pub kfree : ℕ → Cmd (Unit {0})
kfree a h = if h.live a then ok tt (record h { live = update h.live a false }) else faults
