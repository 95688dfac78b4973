-- ===== src/Network/TcpSend/Examples.antt =====
-- A write of four bytes from two slots before the end of the ring.
use g_os.Common.{List, [], arith, refl, ℕ, ◌∷◌, ◌≡◌}
use g_os.Network.TcpSocket.{close_wait, copy, estabilished}
use g_os.Network.TcpSend.{SndQueue, enqueue_packet_tcp, store, take, write_ring, written}
use g_os.Network.TcpSend.Writing.{Written, enqueue-Written}

abbrev queue : SndQueue
queue = record { buf = λ i. 0; buf_size = 4194304; cur = 4194302; wnd_min = 4194000; pnd_data = 0 }

abbrev bytes : List ℕ
bytes = 7 ∷ 8 ∷ 9 ∷ 10 ∷ []

-- The third and the fourth byte are lost.
stored_again : copy (write_ring queue bytes).buf 0 2 ≡ 7 ∷ 8 ∷ []
unfolding copy write_ring store take
stored_again = refl

enqueue-Written_example :
    (q' : SndQueue) × (enqueue_packet_tcp (λ q. q) estabilished queue bytes ≡ written 4 q')
    × (enqueue_packet_tcp (λ q. q) close_wait queue bytes ≡ written 4 q')
    × Written queue bytes q'
enqueue-Written_example = enqueue-Written (λ q. q) queue bytes refl (omega arith) (omega arith)
