-- ===== src/Quantum/Kernel/Sample/Shots.antt =====
-- qcpu_kernel_run_shots: every shot is counted once, in a state that exists.
use mathlib.Core.Path.{subst}
use qbit_nova_c.Base.{
  ℕ, zero, suc, ◌+◌, ◌-◌, ◌^◌, ◌<◌, ◌≤◌, ◌≡◌, ◌≢◌, ◌⊎◌, ◌∙◌, inl, inr, refl, ap, true, some, ◌==◌,
  arith, Bool-cases,
}
use qbit_nova_c.Base.Bits.{two-pow-pos}
use qbit_nova_c.Float.{Float64}
use qbit_nova_c.Quantum.Kernel.{ok, Complex, Kernel, kernel_ready}
use qbit_nova_c.Quantum.Kernel.Gates.Meaning.{IsReady, IsReady-ready}
use qbit_nova_c.Quantum.Kernel.Ghz.Cells.{HasTwoStates}
use qbit_nova_c.Quantum.Kernel.Rng.{rng_next}
use qbit_nova_c.Quantum.Kernel.Sample.{
  count_state, kernel_sample, rng_unit, shots_loop, kernel_run_shots, ShotResult,
}
use qbit_nova_c.Quantum.Kernel.Sample.Choice.{
  SumLaws, kernel_sample-total, kernel_sample-two_states,
}

-- The counts of the states below `n`, added up.
unfoldable pub total : ℕ → (ℕ → ℕ) → ℕ
total zero counts = 0
total (suc n) counts = total n counts + counts n

total-zero : (n : ℕ) → total n (λ _. 0) ≡ 0
unfolding total
total-zero zero = refl
total-zero (suc n) = omega (arith, total-zero n)

le-total : (n i : ℕ) (counts : ℕ → ℕ) → i < n → counts i ≤ total n counts
unfolding total
le-total zero i counts lt = absurd (omega arith)
le-total (suc n) i counts lt = elim (Bool-cases (i == n)) [
  | inl e ↦ ground arith
  | inr e ↦ omega (arith, le-total n i counts (ground arith))
]

count_state_self :
    (counts : ℕ → ℕ) (i : ℕ) → counts i + 1 < 2 ^ 64 → count_state counts i i ≡ counts i + 1
unfolding count_state
count_state_self counts i small = ground arith

count_state_ne : (counts : ℕ → ℕ) (i j : ℕ) → i ≢ j → count_state counts i j ≡ counts j
unfolding count_state
count_state_ne counts i j ne = ground arith

total-count_above :
    (n i : ℕ) (counts : ℕ → ℕ) → n ≤ i → total n (count_state counts i) ≡ total n counts
unfolding total
total-count_above zero i counts le = refl
total-count_above (suc n) i counts le = omega (
  arith,
  total-count_above n i counts (omega arith),
  count_state_ne counts i n (λ e. omega arith),
)

total-count_state :
    (n i : ℕ) (counts : ℕ → ℕ)
    → i < n
    → counts i + 1 < 2 ^ 64
    → total n (count_state counts i) ≡ total n counts + 1
unfolding total
total-count_state zero i counts lt small = absurd (omega arith)
total-count_state (suc n) i counts lt small = elim (Bool-cases (i == n)) [
  | inl e ↦
      let same : i ≡ n = ground arith in
      omega (
        arith,
        total-count_above n i counts (omega arith),
        count_state_self counts i small,
        ap (count_state counts i) same,
        ap counts same,
      )
  | inr e ↦ omega (
    arith,
    total-count_state n i counts (ground arith) small,
    count_state_ne counts i n (ground arith),
  )
]

module _ (F : Float64) where
  open F use {Double}

  abbrev pub seeded : Kernel Double → ℕ → Kernel Double
  seeded k s = record k { rng_state = s }

  -- Whatever the generator's state, a sample of `k` succeeds with a state of which `Q` holds.
  abbrev Samples : Kernel Double → (ℕ → Type 0) → Type 0
  Samples k Q =
      (s : ℕ)
      → (i : ℕ) × (kernel_sample F (seeded k s) 0 ≡ (ok, i, (rng_unit F (seeded k s)).1)) × Q i

  advance : Kernel Double → ℕ → ℕ
  unfolding rng_unit rng_next
  advance k s = (rng_unit F (seeded k s)).1.rng_state

  rng_unit-seeded :
      (k : Kernel Double) (s : ℕ) → (rng_unit F (seeded k s)).1 ≡ seeded k (advance k s)
  unfolding rng_unit advance
  rng_unit-seeded k s = refl

  shots_loop-step :
      (m : ℕ) (k k' : Kernel Double) (counts : ℕ → ℕ) (i : ℕ)
      → kernel_sample F k 0 ≡ (ok, i, k')
      → shots_loop F (suc m) k counts ≡ shots_loop F m k' (count_state counts i)
  unfolding shots_loop
  shots_loop-step m k k' counts i e = ground arith

  record Counted (n : ℕ) (Q : ℕ → Type 0) (before after : ℕ → ℕ) (shots : ℕ) : Type 0 where
    all : total n after ≡ total n before + shots
    others : (j : ℕ) → ¬ Q j → after j ≡ before j

  shots_loop-Counted :
      (k : Kernel Double) (n : ℕ) (Q : ℕ → Type 0)
      → ((i : ℕ) → Q i → i < n)
      → Samples k Q
      → (rounds s : ℕ) (counts : ℕ → ℕ) → total n counts + rounds < 2 ^ 64
      → (s' : ℕ) × (counts' : ℕ → ℕ) × (shots_loop F rounds (seeded k s) counts
          ≡ (ok, seeded k s', counts'))
        × Counted n Q counts counts' rounds
  unfolding shots_loop
  shots_loop-Counted k n Q below sample zero s counts small =
      (s, counts, refl, record { all = omega arith; others = λ j no. refl })
  shots_loop-Counted k n Q below sample (suc m) s counts small =
      let (i, chosen, q) = sample s in
      let lt = below i q in
      let fits : counts i + 1 < 2 ^ 64 = omega (arith, le-total n i counts lt) in
      let added = total-count_state n i counts lt fits in
      let (s', counts', rest, done) =
        shots_loop-Counted k n Q below sample m (advance k s) (count_state counts i)
          (omega arith) in
      (
        s',
        counts',
        shots_loop-step m (seeded k s) (seeded k (advance k s)) counts i
              (chosen ∙ ap (λ (u : Kernel Double). (ok, i, u)) (rng_unit-seeded k s))
            ∙ rest,
        record {
          all = omega (arith, done.all, added);
          others = λ j no. done.others j no ∙ count_state_ne counts i j (λ e. no (subst Q e q));
        },
      )

  pub seeded-IsReady :
      (k : Kernel Double) {a : ℕ → Complex Double} (s : ℕ) → IsReady k a → IsReady (seeded k s) a
  seeded-IsReady k s r = record {
    some_qubit = r.some_qubit;
    few_qubits = r.few_qubits;
    states = r.states;
    array = r.array;
  }

  kernel_run_shots-run :
      (k : Kernel Double) (shots s' : ℕ) (result : ShotResult) (counts : ℕ → ℕ)
      → kernel_ready k ≡ true
      → 0 < shots
      → shots_loop F shots k (λ _. 0) ≡ (ok, seeded k s', counts)
      → kernel_run_shots F true k shots result ≡ (
        ok,
        record { shots = shots; state_count = k.state_count; counts = some counts },
        seeded k s',
      )
  unfolding kernel_run_shots
  kernel_run_shots-run k shots s' result counts ready pos e = ground arith

  -- On a ready kernel a positive number of shots below 2^64 succeeds when the counts can be
  -- allocated: the counts of the basis states add up to the shots, and the kernel keeps all but the
  -- generator's state.
  pub kernel_run_shots-total :
      (k : Kernel Double) {a : ℕ → Complex Double} (shots : ℕ) (result : ShotResult)
      → IsReady k a
      → 0 < shots
      → shots < 2 ^ 64
      → (s' : ℕ) × (counts : ℕ → ℕ) × (kernel_run_shots F true k shots result ≡ (
        ok,
        record { shots = shots; state_count = k.state_count; counts = some counts },
        record k { rng_state = s' },
      ))
        × (total (2 ^ k.qubit_count) counts ≡ shots)
  kernel_run_shots-total k {a} shots result r pos small =
      let n = 2 ^ k.qubit_count in
      let (s', counts, run, done) =
        shots_loop-Counted k n (λ i. i < n) (λ i lt. lt)
          (λ s. kernel_sample-total F (seeded k s) {a = a} (seeded-IsReady k s r) 0) shots
          k.rng_state (λ _. 0) (omega (arith, total-zero n)) in
      (
        s',
        counts,
        kernel_run_shots-run k shots s' result counts (IsReady-ready r) pos run,
        omega (arith, done.all, total-zero n),
      )

  -- On a ready kernel with the two cells of a GHZ state, a positive number of shots below 2^64
  -- succeeds when the counts can be allocated, and every state but the all-zero and the all-one
  -- state is counted 0 times. Relies on SumLaws.
  pub kernel_run_shots-two_states :
      SumLaws F
      → (k : Kernel Double) {a : ℕ → Complex Double} (shots : ℕ) (result : ShotResult) → IsReady k a
      → HasTwoStates F k.qubit_count (2 ^ k.qubit_count - 1) a
      → 0 < shots
      → shots < 2 ^ 64
      → (s' : ℕ) × (counts : ℕ → ℕ) × (kernel_run_shots F true k shots result ≡ (
        ok,
        record { shots = shots; state_count = k.state_count; counts = some counts },
        record k { rng_state = s' },
      ))
        × ((j : ℕ) → j ≢ 0 → j ≢ 2 ^ k.qubit_count - 1 → counts j ≡ 0)
  kernel_run_shots-two_states laws k {a} shots result r cells pos small =
      let n = 2 ^ k.qubit_count in
      let (s', counts, run, done) =
        shots_loop-Counted k n (λ i. (i ≡ 0) ⊎ (i ≡ n - 1))
          (λ i ends. ground (arith, two-pow-pos k.qubit_count))
          (λ s. kernel_sample-two_states F (seeded k s) {a = a} (seeded-IsReady k s r) laws cells 0)
          shots k.rng_state (λ _. 0) (omega (arith, total-zero n)) in
      (
        s',
        counts,
        kernel_run_shots-run k shots s' result counts (IsReady-ready r) pos run,
        λ j first last. done.others j (elim [ inl e ↦ first e | inr e ↦ last e ]),
      )
