-- ===== src/Tunnel/Conn.antt =====
-- A net.Conn as the tunnel code uses it: the bytes that the peer has sent before it closed, the
-- bytes that were accepted for sending, and the writes that fail. Deadlines are not modelled: a
-- read past the deadline is the end of `incoming`, a write past it is an entry of `faults`.
pub mod Writes
use faketunnel.Base.{
  ℕ, Bool, true, false, Option, none, some, List, [], ◌∷◌, ◌++◌, Bytes, Result, ok, err, length,
  take, drop, ltb, if◌then◌else◌, ◌==◌,
}

-- The errors of internal/tunnel, one constructor for each message; the wrapping ones keep what
-- they wrap, as `%w` does.
pub data Error : Type 0 where
  eof unexpected_eof write_failed : Error
  payload_too_large : ℕ → Error
  unsupported_version : ℕ → Error
  frame_too_large : ℕ → Error
  expected_auth_request : ℕ → Error
  string_too_long truncated_string truncated_string_body trailing_bytes : Error
  truncated_auth_response truncated_open truncated_ack truncated_assoc_ack : Error
  ping_length truncated_u32 : Error
  datagram_too_large : ℕ → Error
  unauthorized auth_refused : Error
  expected_auth_response : ℕ → Error
  auth_rejected : Bytes → Error
  read_auth : Error → Error
  read_auth_response : Error → Error
  mux_failed : Error
  read_open_ack : Error → Error
  expected_open_stream_ack : ℕ → Error
  expected_open_stream : ℕ → Error
  expected_pong : ℕ → Error
  stream_refused : Error
  stream_rejected : Bytes → Error

-- errors.Is(err, ErrProbe): the peer did not speak the tunnel protocol
unfoldable pub is_probe : Error → Bool
is_probe (unsupported_version _) = true
is_probe (frame_too_large _) = true
is_probe (expected_auth_request _) = true
is_probe (read_auth e) = is_probe e
is_probe (read_auth_response e) = is_probe e
is_probe (read_open_ack e) = is_probe e
is_probe _ = false

abbrev pub probe_of : {A : Type 0} → Result Error A → Bool
probe_of (ok a) = false
probe_of (err e) = is_probe e

pub record Conn : Type 0 where
  pub incoming : Bytes
  pub sent : Bytes
  -- one entry for each write to come: `some k` fails after k bytes; past the end writes succeed
  pub faults : List (Option ℕ)
  pub closed : Bool

abbrev pub M : Type 0 → Type 0
M A = Conn → Conn × Result Error A

abbrev pub resume : {A B : Type 0} → (A → M B) → Conn × Result Error A → Conn × Result Error B
resume f (c, ok a) = f a c
resume f (c, err e) = (c, err e)

infixl 5 ◌>>=◌
abbrev pub ◌>>=◌ : {A B : Type 0} → M A → (A → M B) → M B
◌>>=◌ first next c = resume next (first c)

infixl 5 ◌>>◌
abbrev pub ◌>>◌ : {B : Type 0} → M (Unit {0}) → M B → M B
◌>>◌ first next c = resume (λ _. next) (first c)

abbrev pub return : {A : Type 0} → A → M A
return a c = (c, ok a)

abbrev pub fail : {A : Type 0} → Error → M A
fail e c = (c, err e)

-- a result computed without the connection
abbrev pub lift : {A : Type 0} → Result Error A → M A
lift r c = (c, r)

-- `_ = f(conn)`
abbrev pub ignore : {A : Type 0} → M A → M (Unit {0})
ignore m c = ((m c).0, ok tt)

-- `fmt.Errorf("...: %w", err)` round a call
abbrev pub rewrap : {A : Type 0} → (Error → Error) → Result Error A → Result Error A
rewrap f (ok a) = ok a
rewrap f (err e) = err (f e)

abbrev pub wrap : {A : Type 0} → (Error → Error) → M A → M A
wrap f m c = ((m c).0, rewrap f (m c).1)

abbrev pub close : M (Unit {0})
close c = (record c { closed = true }, ok tt)

-- io.ReadFull: an early end is EOF before the first byte and ErrUnexpectedEOF after it
unfoldable pub read_full : ℕ → M Bytes
read_full n c =
    if ltb (length c.incoming) n
    then (record c { incoming = [] }, err (if length c.incoming == 0 then eof else unexpected_eof))
    else (record c { incoming = drop n c.incoming }, ok (take n c.incoming))

pub write_with : List (Option ℕ) → Bytes → M (Unit {0})
write_with [] b c = (record c { sent = c.sent ++ b }, ok tt)
write_with (none ∷ fs) b c = (record c { sent = c.sent ++ b; faults = fs }, ok tt)
write_with (some k ∷ fs) b c =
    (record c { sent = c.sent ++ take k b; faults = fs }, err write_failed)

-- conn.Write
unfoldable pub write : Bytes → M (Unit {0})
unfolding write_with
write b c = write_with c.faults b c
