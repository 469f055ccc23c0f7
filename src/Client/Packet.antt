-- ===== src/Client/Packet.antt =====
-- crates/client/src/net/packet.rs: the question that the client asks the game for its room. What the
-- socket does is an argument: whether each call succeeds, and what the last one receives.
use war3_battle_tool.Prelude.{
  ℕ, zero, suc, Bool, true, false, Option, none, some, List, length, ltb, not, if◌then◌else◌,
  Result, ok, err, ◌≡◌, ◌≤◌, ◌<◌, arith, refl,
}

abbrev buffer_size : ℕ
buffer_size = 1024

-- The ways in which it fails, the texts left out.
pub data CheckError : Type 0 where
  cannot_bind : CheckError
  no_timeout : CheckError
  cannot_send : CheckError
  too_short : ℕ → CheckError
  no_answer : CheckError

-- How the calls end: `received` is what `recv_from` leaves in a buffer of a size, if anything.
pub record Calls : Type 0 where
  pub bound : Bool
  pub timeout_set : Bool
  pub sent : ℕ → Bool
  pub received : ℕ → Option (List ℕ)

-- `for _ in 0..3 { sock.send_to(..)?; }`
unfoldable pub send_times : ℕ → (ℕ → Bool) → Bool
send_times zero sent = true
send_times (suc n) sent =
    let rest = send_times n (λ i. sent (suc i)) in if sent 0 then rest else false

unfoldable pub answer : Option (List ℕ) → Result CheckError (List ℕ)
answer none = err no_answer
answer (some bytes) = if ltb 16 (length bytes) then ok bytes else err (too_short (length bytes))

unfoldable pub check_room : Calls → Result CheckError (List ℕ)
unfolding send_times answer
check_room c =
    if not c.bound
    then err cannot_bind
    else if not c.timeout_set
    then err no_timeout
    else if not (send_times 3 c.sent)
    then err cannot_send
    else answer (c.received buffer_size)

-- `recv_from` writes no further than the buffer.
abbrev pub FitsBuffer : (ℕ → Option (List ℕ)) → Type 0
FitsBuffer received = (size : ℕ) (bytes : List ℕ) → received size ≡ some bytes → length bytes ≤ size

-- A packet that is found is longer than 16 bytes and no longer than the buffer.
pub check_room_bounds :
    (c : Calls) (bytes : List ℕ)
    → FitsBuffer c.received
    → check_room c ≡ ok bytes
    → (16 < length bytes) × (length bytes ≤ 1024)
unfolding check_room
check_room_bounds c bytes fits found = answered (c.received 1024) (λ b. fits 1024 b) (ground arith)
  where
    answered :
        (received : Option (List ℕ))
        → ((b : List ℕ) → received ≡ some b → length b ≤ 1024)
        → answer received ≡ ok bytes
        → (16 < length bytes) × (length bytes ≤ 1024)
    answered none fits found = cc
    answered (some b) fits found = ground (arith, fits b refl)
