-- ===== src/DataTypes/Hashtable.antt =====
-- data_types/hashtable.c: chained buckets with doubling. A bucket's `t_llist` is the list of its
-- values from `ll_first` on; a value is a pointer, and the `none` of a search is the NULL returned.
pub mod Entries
pub mod Invariant
pub mod Lookup
pub mod Rehash
pub mod Put
pub mod Distinct
pub mod Map
mod Examples
use g_os.Common.{
  ℕ, zero, suc, ◌+◌, ◌-◌, ◌*◌, ◌%◌, Bool, true, false, ◌&&◌, Option, none, some, List, [], ◌∷◌, ltb,
  ◌==◌, if◌then◌else◌, get_or, set, replicate,
}

-- `t_bucket_data`
pub record BucketData : Type 0 where
  pub key : ℕ
  pub value : ℕ

abbrev pub Chain : Type 0
Chain = List BucketData

abbrev pub datum : ℕ → ℕ → BucketData
datum key value = record { key = key; value = value }

-- `t_hashtable`, less the destructor, which only the freeing of a whole table reads.
pub record Hashtable : Type 0 where
  pub size : ℕ
  pub elements : ℕ
  pub bucket : List Chain

-- The loop of `hashtable_search`: the value found, and the chain with its node deleted if asked.
unfoldable pub search_chain : Chain → ℕ → Bool → Option ℕ × Chain
search_chain [] key remove = (none, [])
search_chain (b ∷ bs) key remove =
    let (found, rest) = search_chain bs key remove in
    if b.key == key then (some b.value, if remove then bs else b ∷ bs) else (found, b ∷ rest)

abbrev pub is_some : Option ℕ → Bool
is_some none = false
is_some (some _) = true

unfoldable pub hashtable_search : Hashtable → ℕ → Bool → Option ℕ × Hashtable
hashtable_search t key remove =
    let index = key % t.size in
    let (found, chain) = search_chain (get_or t.bucket index []) key remove in
    (
      found,
      record t {
        bucket = set t.bucket index chain;
        elements = if remove && is_some found then t.elements - 1 else t.elements;
      },
    )

pub hashtable_get : Hashtable → ℕ → Option ℕ
hashtable_get t key = (hashtable_search t key false).0

unfoldable pub hashtable_remove : Hashtable → ℕ → Option ℕ × Hashtable
hashtable_remove t key = hashtable_search t key true

pub hashtable_init : ℕ → Hashtable
hashtable_init init_size = record {
  size = init_size;
  elements = 0;
  bucket = replicate init_size [];
}

-- `(float)(elements+1)/(float)size > .75`, which is exact below 2 ^ 23 buckets.
pub is_overloaded : Hashtable → Bool
is_overloaded t = ltb (3 * t.size) (4 * (t.elements + 1))

-- What `hashtable_put` does once the table has room.
pub prepend_entry : Hashtable → ℕ → ℕ → Hashtable
prepend_entry t key value =
    let index = key % t.size in
    record t {
      elements = t.elements + 1;
      bucket = set t.bucket index (datum key value ∷ get_or t.bucket index []);
    }

infixl 5 ◌>>=◌
abbrev pub ◌>>=◌ : Option Hashtable → (Hashtable → Option Hashtable) → Option Hashtable
none >>= f = none
some t >>= f = f t

-- The inner and the outer loop of `rehash`. `put` is `hashtable_put`, which `rehash` calls.
module _ (put : Hashtable → ℕ → ℕ → Option Hashtable) where
  pub rehash_chain : Chain → Hashtable → Option Hashtable
  rehash_chain [] new = some new
  rehash_chain (b ∷ bs) new = put new b.key b.value >>= rehash_chain bs

  pub rehash_buckets : List Chain → Hashtable → Option Hashtable
  rehash_buckets [] new = some new
  rehash_buckets (c ∷ cs) new = rehash_chain c new >>= rehash_buckets cs

  pub rehash : Hashtable → Option Hashtable
  rehash t = do
    new ← rehash_buckets t.bucket (hashtable_init (t.size * 2))
    some (record t { bucket = new.bucket; size = new.size; elements = new.elements })

-- `hashtable_put` and `rehash` call one another; `none` means that the depth given ran out.
pub hashtable_put : ℕ → Hashtable → ℕ → ℕ → Option Hashtable
hashtable_put zero t key value = none
hashtable_put (suc depth) t key value =
    let grown = rehash (hashtable_put depth) t in
    (if is_overloaded t then grown else some t) >>= λ r. some (prepend_entry r key value)
