-- ===== src/Network/TcpControl/Examples.antt =====
-- Two hosts with a listening connection on one of them, and a connection between them.
use g_os.Common.{[], false, none, refl, some, true, ℕ, ◌∷◌, ◌≡◌}
use g_os.Network.TcpSocket.{Conn, estabilished, fin_wait_1}
use g_os.Network.TcpControl.{
  Host, collides, conn_desc_init, done, frees_conn, rcv_packet_tcp, segment, sends, starts_timer,
  stops_timer,
}
use g_os.Network.TcpControl.Runs.{}
use g_os.Network.TcpControl.Handshake.{Opens, handshake, handshake-Opens, late_syn-collides}
use g_os.Network.TcpControl.Shutdown.{
  acked, at_rest, host, idle, lost_ack, lost_ack-waits, shutdown, shutdown-frees, up,
}

abbrev zeroes : ℕ → ℕ
zeroes i = 0

abbrev client : Conn
client = record (conn_desc_init zeroes) { status = estabilished; snd_nxt_snd = 700; ref_count = 1 }

abbrev server : Conn
server = record (conn_desc_init zeroes) {
  status = estabilished;
  snd_nxt_snd = 4294967295;
  has_process = true;
}

handshake-Opens_example : Opens (
    handshake zeroes zeroes 5 2 3
      (record { conn = none; req = none; listen = none })
      (record {
        conn = none;
        req = none;
        listen = some (record { back_log_i = none; back_log_c = 0; has_process = true });
      }))
handshake-Opens_example = handshake-Opens zeroes zeroes 5 2 3 0 true none none

late_syn-collides_example :
    (h : Host) × (rcv_packet_tcp zeroes 5
        (host client none (idle 1 false))
        (segment true false false client 0 4293967296)
      ≡ done h (starts_timer ∷ sends (segment true true false client 4293967297 4293967297) ∷ []))
    × (h.conn ≡ some client)
    × (rcv_packet_tcp zeroes 5 h (acked 32768 false 4293967298 4293967297) ≡ collides)
late_syn-collides_example =
    late_syn-collides zeroes 5 4293967296 0 32768 32768 4293967297 1 false client none

shutdown-frees_example :
    shutdown zeroes 5
      (host (at_rest client 4294967295) none none)
      (host (at_rest server 700) none (idle 1 false))
    ≡ some (
      (
        record { conn = none; req = none; listen = none },
        sends (acked 32768 false 0 701) ∷ stops_timer ∷ frees_conn ∷ [],
      ),
      (record { conn = none; req = none; listen = idle 1 false }, stops_timer ∷ frees_conn ∷ []),
    )
shutdown-frees_example = shutdown-frees zeroes 5 1 false client server none none

lost_ack-waits_example :
    lost_ack zeroes 5
      (host (at_rest client 4294967295) none none)
      (host (at_rest server 700) none (idle 1 false))
    ≡ some (host (up (at_rest client 4294967295) 32768 fin_wait_1) none none, [])
lost_ack-waits_example = lost_ack-waits zeroes 5 1 false client server none none

client_resets :
    rcv_packet_tcp zeroes 5
      (host (record client { ref_count = 0 }) none none)
      (record (acked 0 false 0 0) { rst = true })
    ≡ done (record { conn = none; req = none; listen = none }) (stops_timer ∷ frees_conn ∷ [])
unfolding rcv_packet_tcp
client_resets = refl
