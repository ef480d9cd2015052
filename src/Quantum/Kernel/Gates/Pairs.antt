-- ===== src/Quantum/Kernel/Gates/Pairs.antt =====
-- The in-place loop computes each cell from the old array: no round reads what another has written.
use qbit_nova_c.Base.{
  ℕ, zero, suc, ◌+◌, ◌-◌, ◌<◌, ◌≡◌, Bool, true, false, ◌&&◌, ltb, leb, if◌then◌else◌, bit_or, arith,
  Bool-cases, inl, inr,
}
use qbit_nova_c.Quantum.Kernel.Gates.{pair_loop}

module _ {A : Type 0} (test : ℕ → Bool) (mask : ℕ) (f : A → A → A × A) (old : ℕ → A) where
  -- The cell `j` after the rounds below `n`.
  abbrev pub pair_cell : ℕ → ℕ → A
  pair_cell n j =
      if ltb j n && test j
      then (f (old j) (old (j + mask))).0
      else (if leb mask j && (ltb (j - mask) n && test (j - mask))
          then (f (old (j - mask)) (old j)).1
          else old j)

  module _ (pos : 0 < mask) (paired : (i : ℕ) → test i ≡ true → bit_or i mask ≡ i + mask)
      (apart : (i : ℕ) → test i ≡ true → test (i + mask) ≡ false) where
    pub pair_loop_cell : (n j : ℕ) → pair_loop n test mask f old j ≡ pair_cell n j
    unfolding pair_loop
    pair_loop_cell zero j = ground arith
    pair_loop_cell (suc n) j = elim (Bool-cases (test n)) [
      | inl e ↦ ground (
        arith,
        paired n e,
        apart n e,
        apart (n - mask),
        pair_loop_cell n j,
        pair_loop_cell n n,
        pair_loop_cell n (n + mask),
      )
      | inr e ↦ ground (arith, pair_loop_cell n j)
    ]
