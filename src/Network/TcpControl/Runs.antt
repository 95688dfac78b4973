-- ===== src/Network/TcpControl/Runs.antt =====
-- Segments that two hosts exchange, one after the other.
use g_os.Common.{List, Option, [], none, refl, some, suc, zero, ℕ, ◌∷◌, ◌≡◌}
use g_os.Network.TcpSocket.{}
use g_os.Network.TcpControl.{Host, Out, Received, Segment, done, rcv_packet_tcp, sends}

infixl 5 ◌>>=◌
abbrev pub ◌>>=◌ {ℓ₁ ℓ₂} : {A : Type ℓ₁} {B : Type ℓ₂} → Option A → (A → Option B) → Option B
none >>= f = none
some a >>= f = f a

-- The first segment among what is sent.
abbrev pub sent : List Out → Option Segment
sent [] = none
sent (sends s ∷ outs) = some s
sent (_ ∷ outs) = sent outs

abbrev pub settled : Received → Option (Host × List Out)
settled (done h outs) = some (h, outs)
settled _ = none

unfoldable pub receive : (unset : ℕ → ℕ) (garbage : ℕ) → Host → Segment → Option (Host × List Out)
unfolding rcv_packet_tcp
receive unset garbage h s = settled (rcv_packet_tcp unset garbage h s)

-- The segment comes n times, and the answers are lost.
unfoldable pub again : (unset : ℕ → ℕ) (garbage n : ℕ) → Host → Segment → Option Host
again unset garbage zero h s = some h
again unset garbage (suc n) h s = do (h', _) ← receive unset garbage h s; again unset garbage n h' s

-- A segment that changes nothing may come again.
pub again-fixed :
    (unset : ℕ → ℕ) (garbage n : ℕ) (h : Host) (s : Segment) (outs : List Out)
    → receive unset garbage h s ≡ some (h, outs)
    → again unset garbage n h s ≡ some h
unfolding again
again-fixed unset garbage zero h s outs e = refl
again-fixed unset garbage (suc n) h s outs e = rw e (again-fixed unset garbage n h s outs e)
