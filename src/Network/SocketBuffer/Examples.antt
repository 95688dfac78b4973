-- ===== src/Network/SocketBuffer/Examples.antt =====
-- An empty buffer with room for one packet.
use g_os.Common.{[], arith, refl, ◌==◌, ◌∷◌, ◌≡◌}
use g_os.DataTypes.Dllist.{}
use g_os.DataTypes.Dllist.Nodes.{Heap, ok}
use g_os.DataTypes.Dllist.Links.{}
use g_os.DataTypes.Dllist.Insert.{}
use g_os.DataTypes.Queue.{}
use g_os.DataTypes.Queue.Fifo.{}
use g_os.Network.SocketBuffer.{SocketBuffer, enqueue_sckt}
use g_os.Network.SocketBuffer.Bounded.{IsBuffer, enqueue_sckt-IsBuffer}

-- The sentinel at 10, and nothing else.
abbrev ring : Heap
ring = record { live = λ a. a == 10; next = λ a. 10; prev = λ a. 10; val = λ a. 0 }

abbrev buffer : SocketBuffer
buffer = record { buf = 10; buf_size = 1; buf_index = 0 }

abbrev buffer-IsBuffer : IsBuffer ring buffer []
buffer-IsBuffer = record {
  queue = record {
    cells = [];
    ring = record {
      sentinel = record { live = refl; holds = refl; above = omega arith; below = omega arith };
      links = (refl, refl);
      outside = refl;
      distinct = tt;
    };
    order = refl;
  };
  counted = refl;
  bounded = omega arith;
}

enqueue_sckt-IsBuffer_example :
    (h : Heap) × (b : SocketBuffer) × (enqueue_sckt 40 buffer 9 ring ≡ ok b h)
    × IsBuffer h b (9 ∷ [])
enqueue_sckt-IsBuffer_example =
    enqueue_sckt-IsBuffer ring buffer [] 40 9
      (record { unused = refl; above = omega arith; below = omega arith }) buffer-IsBuffer
