-- ===== src/Network/SocketBuffer/Bounded.antt =====
-- The buffer is a queue of at most `buf_size` packets.
use g_os.Common.{
  Bool-cases, List, [], arith, false, if◌then◌else◌, inl, inr, leb, length, length-append, ltb,
  refl, true, ℕ, ◌++◌, ◌+◌, ◌-◌, ◌∷◌, ◌≡◌, ◌≤◌,
}
use g_os.DataTypes.Dllist.Nodes.{Heap, ok}
use g_os.DataTypes.Dllist.Insert.{IsFree}
use g_os.DataTypes.Queue.{}
use g_os.DataTypes.Queue.Fifo.{IsQueue, dequeue-IsQueue, enqueue-IsQueue, front, rest}
use g_os.Network.SocketBuffer.{SocketBuffer, dequeue_sckt, enqueue_sckt}

pub record IsBuffer (h : Heap) (b : SocketBuffer) (waiting : List ℕ) : Type 0 where
  pub queue : IsQueue h b.buf waiting
  pub counted : b.buf_index ≡ length waiting
  pub bounded : length waiting ≤ b.buf_size

-- `enqueue_sckt` puts a packet behind the others while there is room, and drops it otherwise.
pub enqueue_sckt-IsBuffer :
    (h : Heap) (b : SocketBuffer) (q : List ℕ) (fresh v : ℕ)
    → IsFree h fresh
    → IsBuffer h b q
    → (h' : Heap) × (b' : SocketBuffer) × (enqueue_sckt fresh b v h ≡ ok b' h')
      × IsBuffer h' b' (if ltb (length q) b.buf_size then q ++ v ∷ [] else q)
unfolding enqueue_sckt
enqueue_sckt-IsBuffer h b q fresh v free is = elim (Bool-cases (ltb (length q) b.buf_size)) [
  | inl room ↦
      let (h', e, is') = enqueue-IsQueue h b.buf fresh v q free is.queue in
      let fits : leb (b.buf_index + 1) b.buf_size ≡ true = ground (arith, is.counted) in
      (
        h',
        record b { buf_index = b.buf_index + 1 },
        rw (fits, e) refl,
        rw room (record {
          queue = is';
          counted = omega (arith, is.counted, length-append q (v ∷ []));
          bounded = ground (arith, length-append q (v ∷ []));
        }),
      )
  | inr full ↦
      let none_fits : leb (b.buf_index + 1) b.buf_size ≡ false = ground (arith, is.counted) in
      (h, b, rw none_fits refl, rw full is)
]

length-rest : (q : List ℕ) → length (rest q) ≡ length q - 1
length-rest [] = refl
length-rest (v ∷ vs) = omega arith

-- `dequeue_sckt` takes out the oldest packet, or gives NULL.
pub dequeue_sckt-IsBuffer :
    (h : Heap) (b : SocketBuffer) (q : List ℕ)
    → IsBuffer h b q
    → (h' : Heap) × (b' : SocketBuffer) × (dequeue_sckt b h ≡ ok (front q, b') h')
      × IsBuffer h' b' (rest q)
unfolding dequeue_sckt
dequeue_sckt-IsBuffer h b [] is =
    let none_left : ltb 0 b.buf_index ≡ false = ground (arith, is.counted) in
    (h, b, rw none_left refl, is)
dequeue_sckt-IsBuffer h b (v ∷ vs) is =
    let some_left : ltb 0 b.buf_index ≡ true = ground (arith, is.counted) in
    let (h', e, is') = dequeue-IsQueue h b.buf (v ∷ vs) is.queue in
    (
      h',
      record b { buf_index = b.buf_index - 1 },
      rw (some_left, e) refl,
      record {
        queue = is';
        counted = omega (arith, is.counted);
        bounded = omega (arith, is.bounded);
      },
    )
