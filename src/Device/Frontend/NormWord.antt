-- ===== src/Device/Frontend/NormWord.antt =====
-- qcpu_mock_norm_to_q32_32 of src/device/qcpu_mock_frontend.c. The operations on `long double` are a
-- parameter like those on `double`.
use qbit_nova_c.Base.{
  ℕ, ◌^◌, ◌≡◌, Bool, true, false, not, ◌||◌, Option, none, some, refl, if◌then◌else◌,
}
use qbit_nova_c.Float.{Float64}

pub record LongDouble (F : Float64) : Type 1 where
  pub Long : Type 0
  pub of_double : F.Double → Long
  pub of_u64 : ℕ → Long  -- the literals
  pub half : Long
  pub add : Long → Long → Long
  pub mul : Long → Long → Long
  pub floor : Long → Long
  pub lt : Long → Long → Bool
  pub to_u64 : Long → ℕ

module _ (F : Float64) (L : LongDouble F) where
  open F use {Double}

  -- floorl(clamped * 4294967296.0L + 0.5L)
  abbrev rounded : Double → L.Long
  rounded norm =
      let clamped = if F.lt (F.of_u64 1) norm then L.of_u64 1 else L.of_double norm in
      L.floor (L.add (L.mul clamped (L.of_u64 4294967296)) L.half)

  -- `none` is a failure with ERANGE; the out pointer is not NULL.
  unfoldable pub norm_to_q32_32 : Double → Option ℕ
  norm_to_q32_32 norm =
      if not (F.is_finite norm) || F.lt norm (F.of_u64 0)
      then none
      else if F.lt (F.add (F.of_u64 1) (F.div (F.of_u64 1) (F.of_u64 1099511627776))) norm
      then none
      else if L.lt (rounded norm) (L.of_u64 0) || L.lt (L.of_u64 4294967296) (rounded norm)
      then none
      else some (L.to_u64 (rounded norm))

  -- The IEEE-754 facts on the norm 1.0: it is finite, neither negative nor above the bound, and its
  -- product with 2^32 is exact.
  pub record UnitLaws : Type 0 where
    pub one_finite : F.is_finite (F.of_u64 1) ≡ true
    pub one_positive : F.lt (F.of_u64 1) (F.of_u64 0) ≡ false
    pub one_below :
        F.lt (F.add (F.of_u64 1) (F.div (F.of_u64 1) (F.of_u64 1099511627776))) (F.of_u64 1) ≡ false
    pub one_irreflexive : F.lt (F.of_u64 1) (F.of_u64 1) ≡ false
    pub exact :
        L.floor (L.add (L.mul (L.of_double (F.of_u64 1)) (L.of_u64 4294967296)) L.half)
        ≡ L.of_u64 4294967296
    pub top_positive : L.lt (L.of_u64 4294967296) (L.of_u64 0) ≡ false
    pub top_irreflexive : L.lt (L.of_u64 4294967296) (L.of_u64 4294967296) ≡ false
    pub to_of : L.to_u64 (L.of_u64 4294967296) ≡ 4294967296

  rounded_one : UnitLaws → rounded (F.of_u64 1) ≡ L.of_u64 4294967296
  rounded_one u = rw (rounded, u.one_irreflexive) u.exact

  pub norm_to_q32_32-one : UnitLaws → norm_to_q32_32 (F.of_u64 1) ≡ some (2 ^ 32)
  unfolding norm_to_q32_32
  norm_to_q32_32-one u =
      rw (u.one_finite, u.one_positive, u.one_below)
        (rw (rounded_one u) (rw (u.top_positive, u.top_irreflexive, u.to_of) refl))
