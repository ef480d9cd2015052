-- ===== src/Device/Transfer/Bytes.antt =====
-- The arrays of src/device/qcpu_device_io.c: what lies in front of an offset and what lies behind it.
use qbit_nova_c.Base.{
  ℕ, zero, suc, ◌+◌, ◌-◌, ◌≤◌, ◌≡◌, ◌∙◌, refl, sym, ap, min, List, [], ◌∷◌, ◌++◌, length, take,
  drop, arith,
}
use qbit_nova_c.Device.Transfer.{store_bytes, byte_array}

take_add : (n m : ℕ) (s : List ℕ) → take (n + m) s ≡ take n s ++ take m (drop n s)
take_add zero m s = let e : 0 + m ≡ m = omega arith in ap (λ (i : ℕ). take i s) e
take_add (suc n) zero [] = let e : suc n + 0 ≡ suc n = omega arith in ap (λ (i : ℕ). take i []) e
take_add (suc n) (suc m) [] =
    let e : suc n + suc m ≡ suc (n + suc m) = omega arith in ap (λ (i : ℕ). take i []) e
take_add (suc n) m (x ∷ s) =
    let e : suc n + m ≡ suc (n + m) = omega arith in
    ap (λ (i : ℕ). take i (x ∷ s)) e ∙ ap (x ∷◌) (take_add n m s)

drop_nil : (n : ℕ) → drop {A = ℕ} n [] ≡ []
drop_nil zero = refl
drop_nil (suc n) = refl

drop_add : (n m : ℕ) (s : List ℕ) → drop m (drop n s) ≡ drop (n + m) s
drop_add zero m s = let e : m ≡ 0 + m = omega arith in ap (λ (i : ℕ). drop i s) e
drop_add (suc n) m [] = drop_nil m ∙ sym (drop_nil (suc n + m))
drop_add (suc n) m (x ∷ s) =
    let e : suc (n + m) ≡ suc n + m = omega arith in
    drop_add n m s ∙ ap (λ (i : ℕ). drop i (x ∷ s)) e

pub length-take : (n : ℕ) (s : List ℕ) → length (take n s) ≡ min n (length s)
length-take zero s = omega arith
length-take (suc n) [] = omega arith
length-take (suc n) (x ∷ s) = omega (arith, length-take n s)

pub length-drop : (n : ℕ) (s : List ℕ) → length (drop n s) ≡ length s - n
length-drop zero s = omega arith
length-drop (suc n) [] = omega arith
length-drop (suc n) (x ∷ s) = omega (arith, length-drop n s)

take-append : (a b : List ℕ) → take (length a) (a ++ b) ≡ a
take-append [] b = refl
take-append (x ∷ a) b = ap (x ∷◌) (take-append a b)

drop-append_add : (a b : List ℕ) (m : ℕ) → drop (length a + m) (a ++ b) ≡ drop m b
drop-append_add [] b m = let e : 0 + m ≡ m = omega arith in ap (λ (i : ℕ). drop i b) e
drop-append_add (x ∷ a) b m =
    let e : suc (length a) + m ≡ suc (length a + m) = omega arith in
    ap (λ (i : ℕ). drop i (x ∷ (a ++ b))) e ∙ drop-append_add a b m

take-length-take : (n : ℕ) (s : List ℕ) → take (length (take n s)) s ≡ take n s
take-length-take zero s = refl
take-length-take (suc n) [] = refl
take-length-take (suc n) (x ∷ s) = ap (x ∷◌) (take-length-take n s)

-- What is moved next, behind the first `n` bytes.
module _ (n k : ℕ) (s : List ℕ) where
  abbrev piece : List ℕ
  piece = take k (drop n s)

  pub take-piece : take n s ++ piece ≡ take (n + length piece) s
  take-piece = sym (take_add n (length piece) s ∙ ap (take n s ++◌) (take-length-take k (drop n s)))

  pub drop-piece : drop (length piece) (drop n s) ≡ drop (n + length piece) s
  drop-piece = drop_add n (length piece) s

  -- It is stored behind them.
  pub store_bytes-piece :
      (old : List ℕ)
      → n ≤ length s
      → store_bytes n piece (take n s ++ drop n old)
        ≡ take (n + length piece) s ++ drop (n + length piece) old
  unfolding store_bytes
  store_bytes-piece old fits =
      let full : length (take n s) ≡ n = omega (arith, length-take n s, fits) in
      let front : take n (take n s ++ drop n old) ≡ take n s =
        ap (λ (m : ℕ). take m (take n s ++ drop n old)) (sym full)
        ∙ take-append (take n s) (drop n old) in
      let behind : drop (n + length piece) (take n s ++ drop n old) ≡ drop (n + length piece) old =
        ap (λ (m : ℕ). drop (m + length piece) (take n s ++ drop n old)) (sym full)
        ∙ drop-append_add (take n s) (drop n old) (length piece)
        ∙ drop_add n (length piece) old in
      rw (front, behind) (ap (λ (b : List ℕ). b ++ drop (n + length piece) old) take-piece)

pub length-byte_array : (n : ℕ) → length (byte_array n) ≡ n
unfolding byte_array
length-byte_array zero = refl
length-byte_array (suc n) = omega (arith, length-byte_array n)

pub drop-length : (s : List ℕ) → drop (length s) s ≡ []
drop-length [] = refl
drop-length (x ∷ s) = drop-length s

pub take-length : (s : List ℕ) → take (length s) s ≡ s
take-length [] = refl
take-length (x ∷ s) = ap (x ∷◌) (take-length s)
