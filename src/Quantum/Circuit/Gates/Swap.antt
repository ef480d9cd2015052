-- ===== src/Quantum/Circuit/Gates/Swap.antt =====
-- g_swap of src/quantum/qcircuit.c: three CX gates exchange two digits.
use qbit_nova_c.Base.{
  ℕ_discrete, ℕ, ◌+◌, ◌-◌, ◌^◌, ◌<◌, ◌≡◌, ◌≢◌, ◌∙◌, sym, ap, false, ◌==◌, if◌then◌else◌, arith,
}
use qbit_nova_c.Base.Bits.{bit, le_of_bit, bit-sub_pow_self, bit-add_pow_self}
use qbit_nova_c.Quantum.Kernel.Gates.Meaning.{
  position, flip, flip-lt, flip-flip, bit_cases, bit-flip_ne,
}
use qbit_nova_c.Quantum.Circuit.Gates.{ran, g_swap}
use qbit_nova_c.Quantum.Circuit.Gates.Kernel.{cx_array, g_cx-cx_array, cx_array_cell}

-- The index with the digits `p` and `r` exchanged.
unfoldable pub exchanged : (p r j : ℕ) → ℕ
exchanged p r j = if bit p j == bit r j then j else flip r (flip p j)

flip_set : (p j : ℕ) → bit p j ≡ 1 → flip p j ≡ j - 2 ^ p
unfolding flip
flip_set p j set = ground arith

flip_clear : (p j : ℕ) → bit p j ≡ 0 → flip p j ≡ j + 2 ^ p
unfolding flip
flip_clear p j clear = ground arith

bit-flip_self : (p j : ℕ) → bit p (flip p j) ≡ 1 - bit p j
unfolding flip
bit-flip_self p j =
    ground (arith, bit_cases p j, le_of_bit p j, bit-sub_pow_self p j, bit-add_pow_self p j)

flips_commute :
    (p r j : ℕ) → p ≢ r → bit p j ≡ 1 → bit r j ≡ 0 → flip p (flip r j) ≡ flip r (flip p j)
flips_commute p r j ne set clear =
    let over : flip r j ≡ j + 2 ^ r = flip_clear r j clear in
    let under : flip p j ≡ j - 2 ^ p = flip_set p j set in
    let far : flip p (flip r j) ≡ flip r j - 2 ^ p =
      flip_set p (flip r j) (bit-flip_ne p r j ne ∙ set) in
    let near : flip r (flip p j) ≡ flip p j + 2 ^ r =
      flip_clear r (flip p j) (bit-flip_ne r p j (λ e. ne (sym e)) ∙ clear) in
    omega (arith, over, under, far, near, le_of_bit p j set)

-- The index whose amplitude three CX gates bring to `j`.
abbrev moved : (c t j : ℕ) → ℕ
moved c t j = if bit c j == 1 then flip t j else j

moved-exchanged : (p r j : ℕ) → p ≢ r → moved p r (moved r p (moved p r j)) ≡ exchanged p r j
unfolding exchanged
moved-exchanged p r j ne =
    let commute : bit p j ≡ 1 → bit r j ≡ 0 → flip p (flip r j) ≡ flip r (flip p j) =
      λ set clear. flips_commute p r j ne set clear in
    ground (
      arith,
      bit_cases p j,
      bit_cases r j,
      bit-flip_self p j,
      bit-flip_self r j,
      bit-flip_self p (flip r j),
      bit-flip_self r (flip p j),
      bit-flip_ne p r j ne,
      bit-flip_ne r p j (λ e. ne (sym e)),
      bit-flip_ne p r (flip p j) ne,
      bit-flip_ne r p (flip r j) (λ e. ne (sym e)),
      flip-flip r j,
      commute,
    )

moved-lt : (n c t j : ℕ) → t < n → j < 2 ^ n → moved c t j < 2 ^ n
moved-lt n c t j lt fits = ground (arith, flip-lt t n j lt fits)

exchanged_same : (p r j : ℕ) → p ≡ r → exchanged p r j ≡ j
unfolding exchanged
exchanged_same p r j e = ground arith

module _ {A : Type 0} (amp : ℕ → A) (n a b : ℕ) (la : a < n) (lb : b < n) where
  three : ℕ → A
  three = cx_array (cx_array (cx_array amp n a b) n b a) n a b

  three-runs : a ≢ b → g_swap amp n a b ≡ ran three
  unfolding g_swap three
  three-runs ne =
      let first = g_cx-cx_array amp n a b la lb ne in
      let second = g_cx-cx_array (cx_array amp n a b) n b a lb la (λ e. ne (sym e)) in
      let third = g_cx-cx_array (cx_array (cx_array amp n a b) n b a) n a b la lb ne in
      let differ : (a == b) ≡ false = ground arith in rw (differ, first, second) third

  -- A cell after one gate, as the amplitude of one index.
  cell :
      (x : ℕ → A) (c t : ℕ)
      → c < n
      → t < n
      → c ≢ t
      → (j : ℕ) → j < 2 ^ n
      → cx_array x n c t j ≡ x (moved (position n c) (position n t) j)
  cell x c t lc lt ne j fits = cx_array_cell x n c t lc lt ne j fits ∙ ground arith

  three-cell :
      a ≢ b → (j : ℕ) → j < 2 ^ n → three j ≡ amp (exchanged (position n a) (position n b) j)
  unfolding three
  three-cell ne j fits =
      let p = position n a in
      let r = position n b in
      let j1 = moved p r j in
      let j2 = moved r p j1 in
      let fits1 : j1 < 2 ^ n = moved-lt n p r j (omega arith) fits in
      let fits2 : j2 < 2 ^ n = moved-lt n r p j1 (omega arith) fits1 in
      let one = cx_array amp n a b in
      cell (cx_array one n b a) a b la lb ne j fits
      ∙ cell one b a lb la (λ e. ne (sym e)) j1 fits1
      ∙ cell amp a b la lb ne j2 fits2
      ∙ ap amp (moved-exchanged p r j (λ e. ne (omega arith)))

  -- On two qubits in range, g_swap runs to its end and puts into each cell the amplitude of the
  -- state with the digits of the two qubits exchanged.
  pub g_swap-exchanged :
      (c : ℕ → A) × (g_swap amp n a b ≡ ran c)
      × ((j : ℕ) → j < 2 ^ n → c j ≡ amp (exchanged (position n a) (position n b) j))
  unfolding g_swap
  g_swap-exchanged = elim (ℕ_discrete a b) [
    | yes e ↦ (
      amp,
      ground arith,
      λ j fits. ap amp (sym (exchanged_same (position n a) (position n b) j (ap (position n) e))),
    )
    | no ne ↦ (three, three-runs ne, three-cell ne)
  ]
