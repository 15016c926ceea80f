-- ===== src/Tunnel/Conn/Writes.antt =====
-- What a write leaves on the connection.
use faketunnel.Base.{
  false, ℕ, ◌≡◌, refl, Option, none, some, List, [], ◌∷◌, ◌++◌, arith, length, take, take-length,
  ok, Bytes,
}
use faketunnel.Tunnel.Conn.{Conn, write_with, write, is_probe, probe_of}

write_with-prefix :
    (fs : List (Option ℕ)) (b : Bytes) (c : Conn)
    → (n : ℕ) × ((write_with fs b c).0.sent ≡ c.sent ++ take n b)
unfolding write_with
write_with-prefix [] b c = (length b, rw take-length)
write_with-prefix (none ∷ fs) b c = (length b, rw take-length)
write_with-prefix (some k ∷ fs) b c = (k, refl)

-- A write, failed or not, sends a prefix of its bytes.
pub write-prefix : (b : Bytes) (c : Conn) → (n : ℕ) × ((write b c).0.sent ≡ c.sent ++ take n b)
unfolding write
write-prefix b c = write_with-prefix c.faults b c

write_with_whole :
    (fs : List (Option ℕ)) (b : Bytes) (c c' : Conn)
    → write_with fs b c ≡ (c', ok tt)
    → c'.sent ≡ c.sent ++ b
unfolding write_with
write_with_whole [] b c c' e = ground arith
write_with_whole (none ∷ fs) b c c' e = ground arith
write_with_whole (some k ∷ fs) b c c' e = ground arith

-- A write that succeeds sends all of them.
pub write_whole : (b : Bytes) (c c' : Conn) → write b c ≡ (c', ok tt) → c'.sent ≡ c.sent ++ b
unfolding write
write_whole b c c' e = write_with_whole c.faults b c c' e

write_with_keeps :
    (fs : List (Option ℕ)) (b : Bytes) (c : Conn)
    → ((write_with fs b c).0.incoming ≡ c.incoming) × ((write_with fs b c).0.closed ≡ c.closed)
unfolding write_with
write_with_keeps [] b c = (refl, refl)
write_with_keeps (none ∷ fs) b c = (refl, refl)
write_with_keeps (some k ∷ fs) b c = (refl, refl)

-- Writing reads nothing and closes nothing.
pub write_keeps :
    (b : Bytes) (c : Conn)
    → ((write b c).0.incoming ≡ c.incoming) × ((write b c).0.closed ≡ c.closed)
unfolding write
write_keeps b c = write_with_keeps c.faults b c

write_with-not-probe :
    (fs : List (Option ℕ)) (b : Bytes) (c : Conn) → probe_of (write_with fs b c).1 ≡ false
unfolding write_with is_probe
write_with-not-probe [] b c = refl
write_with-not-probe (none ∷ fs) b c = refl
write_with-not-probe (some k ∷ fs) b c = refl

-- A failed write says nothing of the peer.
pub write-not-probe : (b : Bytes) (c : Conn) → probe_of (write b c).1 ≡ false
unfolding write
write-not-probe b c = write_with-not-probe c.faults b c
