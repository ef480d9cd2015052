-- ===== src/Device/Transfer/Whole.antt =====
-- src/device/qcpu_device_io.c: whole packets or an error, and bytes that arrive in any pieces.
use qbit_nova_c.Base.{
  ℕ, ◌+◌, ◌-◌, ◌≡◌, ◌<◌, ◌≤◌, ◌⊎◌, ◌≢◌, ◌∙◌, inl, inr, refl, ap, sym, min, Option, none, some, List,
  [], ◌++◌, length, take, drop, arith,
}
use mathlib.Core.List.{append-nil}
use qbit_nova_c.Device.Transfer.{
  IoStatus, io_ok, Round, Reading, read_call, send_call, with_buffer, transfer, read_all, write_all,
}
use qbit_nova_c.Device.Transfer.Bytes.{
  take-piece, drop-piece, store_bytes-piece, length-take, length-drop, drop-length, take-length,
}
use qbit_nova_c.Device.Transfer.Loop.{Goes, moved_bytes, transfer-IsWhole, transfer-Done}

-- The first `n` bytes of the peer are in the buffer, the rest of which is as it was.
record HasRead (size : ℕ) (old stream : List ℕ) (n : ℕ) (r : Reading) : Type 0 where
  enough : n ≤ length stream
  buffer : r.buffer ≡ take n stream ++ drop n old
  left : r.stream ≡ drop n stream

-- A call of read() with the offset and the length of the loop.
module _ (size : ℕ) (old stream : List ℕ) where
  read_call-HasRead :
      (n count : ℕ) (r : Reading)
      → n < size
      → HasRead size old stream n r
      → let (m, r') = read_call n (size - n) count r in
        HasRead size old stream (n + m) r' × (n + m ≤ size)
  unfolding read_call
  read_call-HasRead n count r lt h =
      let k = min count (size - n) in
      let size_of_piece : length (take k (drop n stream)) ≤ min k (length stream - n) =
        omega (arith, length-take k (drop n stream), length-drop n stream) in
      rw (h.buffer, h.left)
        (
          record {
            enough = omega (arith, size_of_piece, h.enough);
            buffer = store_bytes-piece n k stream old h.enough;
            left = drop-piece n k stream;
          },
          omega (arith, size_of_piece, lt),
        )

-- A call of send() with the offset and the length of the loop.
HasSent : (buffer : List ℕ) (n : ℕ) (sent : List ℕ) → Type 0
HasSent buffer n sent = sent ≡ take n buffer

send_call-HasSent :
    (buffer : List ℕ) (n count : ℕ) (sent : List ℕ)
    → n < length buffer
    → HasSent buffer n sent
    → let (m, sent') = send_call buffer n (length buffer - n) count sent in
      HasSent buffer (n + m) sent' × (n + m ≤ length buffer)
unfolding send_call HasSent
send_call-HasSent buffer n count sent lt h =
    let k = min count (length buffer - n) in
    (
      rw h (take-piece n k buffer),
      omega (arith, length-take k (drop n buffer), length-drop n buffer, lt),
    )

-- Every call moves all that it can, when there is room and the peer sends enough.
send_call-Exact :
    (buffer : List ℕ) (n count : ℕ) (sent : List ℕ)
    → n + count ≤ length buffer
    → HasSent buffer n sent
    → (send_call buffer n (length buffer - n) count sent).0 ≡ count
unfolding send_call
send_call-Exact buffer n count sent room h =
    omega (
      arith,
      length-take (min count (length buffer - n)) (drop n buffer),
      length-drop n buffer,
      room,
    )

read_call-Exact :
    (size : ℕ) (old stream : List ℕ)
    → length stream ≡ size
    → (n count : ℕ) (r : Reading) → n + count ≤ size
    → HasRead size old stream n r
    → (read_call n (size - n) count r).0 ≡ count
unfolding read_call
read_call-Exact size old stream long n count r room h = rw h.left (
    omega
      (arith, length-take (min count (size - n)) (drop n stream), length-drop n stream, room, long))

with_buffer-some :
    (o : Option (IoStatus × Reading)) (status : IoStatus) (buffer : List ℕ)
    → with_buffer o ≡ some (status, buffer)
    → (r : Reading) × (o ≡ some (status, r)) × (r.buffer ≡ buffer)
with_buffer-some none status buffer e = absurd (cc)
with_buffer-some (some (s, r)) status buffer e = (r, ground (arith, e), ground (arith, e))

full-buffer :
    (size : ℕ) (old stream : List ℕ)
    → length old ≡ size
    → take size stream ++ drop size old ≡ take size stream
full-buffer size old stream long =
    ap (λ (rest : List ℕ). take size stream ++ rest)
      (ap (λ (n : ℕ). drop n old) (sym long) ∙ drop-length old)
    ∙ append-nil (take size stream)

-- For any array of `size` bytes and anything that the system calls give: when qcpu_device_read_all
-- returns OK, the array holds exactly the first `size` bytes that the peer sends, which has sent that
-- many; with any other status it holds fewer of them, and behind them what it held before.
pub read_all-whole :
    (deadline_ms size : ℕ) (old stream : List ℕ) (rounds : List Round)
    → length old ≡ size
    → (status : IoStatus) (buffer : List ℕ)
    → read_all deadline_ms size old stream rounds ≡ some (status, buffer)
    → ((status ≡ io_ok) × (size ≤ length stream) × (buffer ≡ take size stream))
      ⊎ ((status ≢ io_ok) × (n : ℕ) × (n < size) × (buffer ≡ take n stream ++ drop n old))
unfolding read_all
read_all-whole deadline_ms size old stream rounds long status buffer e =
    let start : Reading = record { buffer = old; stream = stream } in
    let (r, ends, holds) =
      with_buffer-some (transfer read_call deadline_ms size 0 start rounds) status buffer e in
    elim (transfer-IsWhole read_call deadline_ms size (HasRead size old stream)
      (read_call-HasRead size old stream) start rounds
      (record { enough = omega arith; buffer = refl; left = refl }) status r ends) [
        | inl (ok, h) ↦ inl (ok, h.enough, sym holds ∙ h.buffer ∙ full-buffer size old stream long)
        | inr (fails, n, fewer, h) ↦ inr (fails, n, fewer, sym holds ∙ h.buffer)
      ]

-- Whatever the system calls give, qcpu_device_write_all returns OK exactly when the peer is sent the
-- whole buffer, and otherwise it has been sent a shorter prefix of it.
pub write_all-whole :
    (deadline_ms : ℕ) (buffer : List ℕ) (rounds : List Round) (status : IoStatus) (sent : List ℕ)
    → write_all deadline_ms buffer rounds ≡ some (status, sent)
    → ((status ≡ io_ok) × (sent ≡ buffer))
      ⊎ ((status ≢ io_ok) × (n : ℕ) × (n < length buffer) × (sent ≡ take n buffer))
unfolding write_all HasSent
write_all-whole deadline_ms buffer rounds status sent e =
    elim (transfer-IsWhole (send_call buffer) deadline_ms (length buffer) (HasSent buffer)
      (send_call-HasSent buffer) [] rounds refl status sent e) [
        | inl (ok, all) ↦ inl (ok, all ∙ take-length buffer)
        | inr fails ↦ inr fails
      ]

-- A buffer that send() takes in any number of pieces, with interruptions and waits that end with OK
-- between them, arrives whole: qcpu_device_write_all returns OK, and the peer is sent the buffer.
pub write_all-arrives :
    (deadline_ms : ℕ) (buffer : List ℕ) (rounds : List Round)
    → Goes deadline_ms rounds
    → moved_bytes rounds ≡ length buffer
    → write_all deadline_ms buffer rounds ≡ some (io_ok, buffer)
unfolding write_all HasSent
write_all-arrives deadline_ms buffer rounds goes all =
    let (sent, ends, whole) =
      transfer-Done (send_call buffer) deadline_ms (length buffer) (HasSent buffer)
        (send_call-HasSent buffer) (send_call-Exact buffer) 0 [] rounds goes (omega (arith, all))
        refl in
    ends ∙ ap (λ (bytes : List ℕ). some (io_ok, bytes)) (whole ∙ take-length buffer)

-- The same for what is read.
pub read_all-arrives :
    (deadline_ms size : ℕ) (old stream : List ℕ) (rounds : List Round)
    → length old ≡ size
    → length stream ≡ size
    → Goes deadline_ms rounds
    → moved_bytes rounds ≡ size
    → read_all deadline_ms size old stream rounds ≡ some (io_ok, stream)
unfolding read_all
read_all-arrives deadline_ms size old stream rounds long long' goes all =
    let start : Reading = record { buffer = old; stream = stream } in
    let (r, ends, h) =
      transfer-Done read_call deadline_ms size (HasRead size old stream)
        (read_call-HasRead size old stream) (read_call-Exact size old stream long') 0 start rounds
        goes (omega (arith, all)) (record { enough = omega arith; buffer = refl; left = refl }) in
    ap with_buffer ends
    ∙ ap (λ (bytes : List ℕ). some (io_ok, bytes))
        (h.buffer
          ∙ full-buffer size old stream long
          ∙ ap (λ (n : ℕ). take n stream) (sym long')
          ∙ take-length stream)
