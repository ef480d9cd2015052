-- ===== src/Device/Transfer/Loop.antt =====
-- src/device/qcpu_device_io.c: how the loop of qcpu_device_read_all and qcpu_device_write_all ends, for
-- any call that moves bytes.
use qbit_nova_c.Base.{
  ltb, ◌==◌, Bool-cases, zero, suc, ℕ, ◌+◌, ◌-◌, ◌≡◌, ◌<◌, ◌≤◌, ◌⊎◌, ◌≢◌, inl, inr, refl, Bool,
  true, false, Option, none, some, List, [], ◌∷◌, if◌then◌else◌, arith,
}
use mathlib.Core.Path.{subst}
use qbit_nova_c.Device.Transfer.{
  IoStatus, io_ok, io_error, wait_until_ready, moved, at_end, call_interrupted, call_failed,
  would_block, Round, round, Call, Progress, go_on, return, stuck, transfer_round, transfer,
}

-- The rounds that go on, ready or after an interruption or a wait that ends with OK, and the bytes
-- that they move.
abbrev pub Goes : (deadline_ms : ℕ) → List Round → Type 0
Goes deadline_ms [] = Unit
Goes deadline_ms (round true result ∷ rounds) = ⊥
Goes deadline_ms (round false (moved zero) ∷ rounds) = ⊥
Goes deadline_ms (round false (moved (suc more)) ∷ rounds) = Goes deadline_ms rounds
Goes deadline_ms (round false call_interrupted ∷ rounds) = Goes deadline_ms rounds
Goes deadline_ms (round false (would_block ticks) ∷ rounds) =
    (wait_until_ready deadline_ms ticks ≡ some io_ok) × Goes deadline_ms rounds
Goes deadline_ms (round false at_end ∷ rounds) = ⊥
Goes deadline_ms (round false call_failed ∷ rounds) = ⊥

abbrev pub moved_bytes : List Round → ℕ
moved_bytes [] = 0
moved_bytes (round stopped (moved count) ∷ rounds) = count + moved_bytes rounds
moved_bytes (round stopped _ ∷ rounds) = moved_bytes rounds

module _ {Data : Type 0} (call : Call Data) (deadline_ms size : ℕ) (P : ℕ → Data → Type 0) where
  -- `P`, of the bytes that are done and the data, holds again after each call.
  abbrev pub Keeps : Type 0
  Keeps =
      (n count : ℕ) (d : Data)
      → n < size
      → P n d
      → let (m, d') = call n (size - n) count d in P (n + m) d' × (n + m ≤ size)

  -- How a transfer ends.
  abbrev pub IsWhole : IoStatus → Data → Type 0
  IsWhole status d =
      ((status ≡ io_ok) × P size d) ⊎ ((status ≢ io_ok) × (n : ℕ) × (n < size) × P n d)

  Good : Progress Data → Type 0
  Good (go_on n d) = P n d × (n ≤ size)
  Good (return status) = status ≢ io_ok
  Good stuck = Unit

  Ends : Option (IoStatus × Data) → Type 0
  Ends none = Unit
  Ends (some (status, d)) = IsWhole status d

  wait-Good :
      (n : ℕ) (d : Data) (o : Option IoStatus)
      → P n d
      → n ≤ size
      → Good (elim o [ none ↦ stuck | some io_ok ↦ go_on n d | some status ↦ return status ])
  unfolding Good
  wait-Good n d none h le = tt
  wait-Good n d (some io_ok) h le = (h, le)
  wait-Good n d (some status) h le = λ e. absurd (ground (arith, e))

  moved-Good :
      (b : Bool) (n : ℕ) (d : Data)
      → P n d × (n ≤ size)
      → Good (if b then return io_error else go_on n d)
  unfolding Good
  moved-Good true n d h = λ e. absurd (ground (arith, e))
  moved-Good false n d h = h

  round-Good :
      Keeps
      → (n : ℕ) (d : Data) (r : Round) → n < size
      → P n d
      → Good (transfer_round call deadline_ms size n d r)
  unfolding Good transfer_round
  round-Good keeps n d (round true result) lt h = λ e. absurd (ground (arith, e))
  round-Good keeps n d (round false (moved count)) lt h =
      let (m, d') = call n (size - n) count d in
      moved-Good (m == 0) (n + m) d' (keeps n count d lt h)
  round-Good keeps n d (round false call_interrupted) lt h = (h, omega (arith, lt))
  round-Good keeps n d (round false (would_block ticks)) lt h =
      wait-Good n d (wait_until_ready deadline_ms ticks) h (omega (arith, lt))
  round-Good keeps n d (round false at_end) lt h = λ e. absurd (ground (arith, e))
  round-Good keeps n d (round false call_failed) lt h = λ e. absurd (ground (arith, e))

  progress-Ends :
      (n : ℕ) (d : Data) (after : ℕ → Data → Option (IoStatus × Data)) (t : Progress Data)
      → n < size
      → P n d
      → ((m : ℕ) (e : Data) → m ≤ size → P m e → Ends (after m e))
      → Good t
      → Ends (elim t [ go_on m e ↦ after m e | return status ↦ some (status, d) | stuck ↦ none ])
  unfolding Good Ends
  progress-Ends n d after (go_on m e) lt h rest good = rest m e good.1 good.0
  progress-Ends n d after (return status) lt h rest good = inr (good, n, lt, h)
  progress-Ends n d after stuck lt h rest good = tt

  transfer-Ends :
      Keeps
      → (n : ℕ) (d : Data) (rounds : List Round) → n ≤ size
      → P n d
      → Ends (transfer call deadline_ms size n d rounds)
  unfolding transfer Ends
  transfer-Ends keeps n d [] le h = elim (Bool-cases (ltb n size)) [
    | inl e ↦ rw e tt
    | inr e ↦ rw e (inl (refl, subst (λ (m : ℕ). P m d) (ground (arith, e, le)) h))
  ]
  transfer-Ends keeps n d (r ∷ rounds) le h = elim (Bool-cases (ltb n size)) [
    | inl e ↦
        let lt : n < size = ground (arith, e) in
        rw e (
          progress-Ends n d (λ m d'. transfer call deadline_ms size m d' rounds)
            (transfer_round call deadline_ms size n d r) lt h
            (λ m d' le' h'. transfer-Ends keeps m d' rounds le' h') (round-Good keeps n d r lt h))
    | inr e ↦ rw e (inl (refl, subst (λ (m : ℕ). P m d) (ground (arith, e, le)) h))
  ]

  pub transfer-IsWhole :
      Keeps
      → (d : Data) (rounds : List Round) → P 0 d
      → (status : IoStatus) (e : Data)
      → transfer call deadline_ms size 0 d rounds ≡ some (status, e)
      → IsWhole status e
  unfolding Ends
  transfer-IsWhole keeps d rounds h status e eq =
      subst Ends eq (transfer-Ends keeps 0 d rounds (omega arith) h)

  -- Every call moves as many bytes as the socket is ready for, when they are not too many.
  abbrev pub Exact : Type 0
  Exact =
      (n count : ℕ) (d : Data) → n + count ≤ size → P n d → (call n (size - n) count d).0 ≡ count

  abbrev pub Done : ℕ → Data → List Round → Type 0
  Done n d rounds =
      (e : Data) × (transfer call deadline_ms size n d rounds ≡ some (io_ok, e)) × P size e

  stop-Done :
      (n : ℕ) (d : Data) (rounds : List Round)
      → ltb n size ≡ false
      → n + moved_bytes rounds ≡ size
      → P n d
      → Done n d rounds
  unfolding transfer
  stop-Done n d [] e all h = (d, rw e refl, subst (λ (m : ℕ). P m d) (ground (arith, e, all)) h)
  stop-Done n d (r ∷ rounds) e all h =
      (d, rw e refl, subst (λ (m : ℕ). P m d) (ground (arith, e, all)) h)

  -- One round that goes on, and the rounds behind it.
  round-Done :
      (n m : ℕ) (d d' : Data) (r : Round) (rounds : List Round)
      → ltb n size ≡ true
      → transfer_round call deadline_ms size n d r ≡ go_on m d'
      → Done m d' rounds
      → Done n d (r ∷ rounds)
  unfolding transfer
  round-Done n m d d' r rounds e goes (f, ends, h) = (f, rw (e, goes) ends, h)

  pub transfer-Done :
      Keeps
      → Exact
      → (n : ℕ) (d : Data) (rounds : List Round) → Goes deadline_ms rounds
      → n + moved_bytes rounds ≡ size
      → P n d
      → Done n d rounds
  unfolding transfer_round
  transfer-Done keeps exact n d [] goes all h = stop-Done n d [] (ground (arith, all)) all h
  transfer-Done keeps exact n d (round true result ∷ rounds) goes all h = absurd goes
  transfer-Done keeps exact n d (round false (moved zero) ∷ rounds) goes all h = absurd goes
  transfer-Done keeps exact n d (round false (moved (suc more)) ∷ rounds) goes all h =
      elim (Bool-cases (ltb n size)) [
        | inl e ↦
            let (m, d') = call n (size - n) (suc more) d in
            let same : m ≡ suc more = exact n (suc more) d (omega (arith, all)) h in
            let some_bytes : (m == 0) ≡ false = ground (arith, same) in
            round-Done n (n + m) d d' (round false (moved (suc more))) rounds e (rw some_bytes refl)
              (transfer-Done keeps exact (n + m) d' rounds goes (omega (arith, same, all))
                (keeps n (suc more) d (ground (arith, e)) h).0)
        | inr e ↦ stop-Done n d (round false (moved (suc more)) ∷ rounds) e all h
      ]
  transfer-Done keeps exact n d (round false call_interrupted ∷ rounds) goes all h =
      elim (Bool-cases (ltb n size)) [
        | inl e ↦
            round-Done n n d d (round false call_interrupted) rounds e refl
              (transfer-Done keeps exact n d rounds goes all h)
        | inr e ↦ stop-Done n d (round false call_interrupted ∷ rounds) e all h
      ]
  transfer-Done keeps exact n d (round false (would_block ticks) ∷ rounds) goes all h =
      elim (Bool-cases (ltb n size)) [
        | inl e ↦
            round-Done n n d d (round false (would_block ticks)) rounds e (rw goes.0 refl)
              (transfer-Done keeps exact n d rounds goes.1 all h)
        | inr e ↦ stop-Done n d (round false (would_block ticks) ∷ rounds) e all h
      ]
  transfer-Done keeps exact n d (round false at_end ∷ rounds) goes all h = absurd goes
  transfer-Done keeps exact n d (round false call_failed ∷ rounds) goes all h = absurd goes
