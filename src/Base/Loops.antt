-- ===== src/Base/Loops.antt =====
-- Counted loops: the rounds `0 … n - 1` in ascending order.
use Prim.Native.Nat.{ℕ, zero, suc}

-- for (k = 0; k < n; ++k) s = body k s;
unfoldable pub for_range {ℓ} : {S : Type ℓ} → ℕ → (ℕ → S → S) → S → S
for_range zero body s = s
for_range (suc n) body s = body n (for_range n body s)

-- An invariant that holds before the first round and that every round keeps holds at the end.
pub for_range_inv {ℓ κ} :
    {S : Type ℓ} (P : ℕ → S → Type κ) (body : ℕ → S → S)
    → ((i : ℕ) (s : S) → P i s → P (suc i) (body i s))
    → (n : ℕ) (s : S) → P 0 s
    → P n (for_range n body s)
unfolding for_range
for_range_inv P body keep zero s h = h
for_range_inv P body keep (suc n) s h = keep n _ (for_range_inv P body keep n s h)
