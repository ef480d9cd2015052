-- ===== src/Language/Vm/Links.antt =====
-- Linked qubits after a measurement.
use qbit_nova_c.Base.{
  ◌≡◌, ◌≢◌, ◌∙◌, refl, ap, sym, true, false, some, List, [], ◌∷◌, Text, same, same→eq,
  same-eq_false, arith,
}
use qbit_nova_c.Float.{Float64}
use qbit_nova_c.Language.Vm.{CLibrary, Vm, VmQbit}
use qbit_nova_c.Language.Vm.Store.{
  find_qbit, change_qbit, collapse, picks_one, measure, measure_linked,
}

module _ {Double : Type 0} where
  find_qbit-name :
      (name : Text) (qs : List (VmQbit Double)) (q : VmQbit Double)
      → find_qbit name qs ≡ some q
      → q.name ≡ name
  unfolding find_qbit
  find_qbit-name name [] q h = absurd (cc)
  find_qbit-name name (r ∷ qs) q h =
      ground (arith, same→eq r.name name, find_qbit-name name qs q, h)

  -- What a change does to the qubit of that name, and to the others.
  find_qbit-change :
      (name : Text) (f : VmQbit Double → VmQbit Double) (qs : List (VmQbit Double))
      (q : VmQbit Double)
      → ((r : VmQbit Double) → (f r).name ≡ r.name)
      → find_qbit name qs ≡ some q
      → find_qbit name (change_qbit name f qs) ≡ some (f q)
  unfolding find_qbit change_qbit
  find_qbit-change name f [] q keeps h = absurd (cc)
  find_qbit-change name f (r ∷ qs) q keeps h =
      ground (arith, keeps r, find_qbit-change name f qs q keeps, h)

  find_qbit-change_ne :
      (name other : Text) (f : VmQbit Double → VmQbit Double) (qs : List (VmQbit Double))
      → ((r : VmQbit Double) → (f r).name ≡ r.name)
      → name ≢ other
      → find_qbit other (change_qbit name f qs) ≡ find_qbit other qs
  unfolding find_qbit change_qbit
  find_qbit-change_ne name other f [] keeps ne = refl
  find_qbit-change_ne name other f (r ∷ qs) keeps ne = ground (
    arith,
    keeps r,
    same→eq r.name name,
    same→eq r.name other,
    find_qbit-change_ne name other f qs keeps ne,
  )

module _ (F : Float64) (C : CLibrary F) where
  open F use {Double}

  measure_linked-run :
      (q p : VmQbit Double) (vm : Vm Double)
      → same q.entangled_with [] ≡ false
      → find_qbit q.entangled_with (measure F C q vm).qbits ≡ some p
      → (measure_linked F C q vm).qbits
        ≡ change_qbit p.name
            (collapse F C (picks_one F C vm.rand_calls q))
            (change_qbit q.name (collapse F C (picks_one F C vm.rand_calls q)) vm.qbits)
  unfolding measure_linked measure
  measure_linked-run q p vm linked found = rw (linked, found, measure_linked) refl

  -- Measuring a qubit that is linked to another one, which exists, leaves both measured, with the
  -- same result and the same amplitudes.
  pub measure_linked-agree :
      (q p : VmQbit Double) (vm : Vm Double)
      → find_qbit q.name vm.qbits ≡ some q
      → q.entangled_with ≢ []
      → q.entangled_with ≢ q.name
      → find_qbit q.entangled_with vm.qbits ≡ some p
      → (q' p' : VmQbit Double) × (find_qbit q.name (measure_linked F C q vm).qbits ≡ some q')
        × (find_qbit q.entangled_with (measure_linked F C q vm).qbits ≡ some p')
        × (q'.measured ≡ true)
        × (p'.measured ≡ true)
        × (q'.result ≡ p'.result)
        × (q'.a ≡ p'.a)
        × (q'.b ≡ p'.b)
  unfolding measure
  measure_linked-agree q p vm hq linked ne hp =
      let f = collapse F C (picks_one F C vm.rand_calls q) in
      let name_p = find_qbit-name q.entangled_with vm.qbits p hp in
      let found =
        find_qbit-change_ne q.name q.entangled_with f vm.qbits (λ r. refl) (λ e. ne (sym e)) ∙ hp in
      let after = measure_linked-run q p vm (same-eq_false q.entangled_with [] linked) found in
      let qs = change_qbit q.name f vm.qbits in
      (
        f q,
        f p,
        ap (find_qbit q.name) after
            ∙ find_qbit-change_ne p.name q.name f qs (λ r. refl) (λ e. ne (sym name_p ∙ e))
            ∙ find_qbit-change q.name f vm.qbits q (λ r. refl) hq,
        ap (find_qbit q.entangled_with) after
            ∙ ap (λ (n : Text). find_qbit q.entangled_with (change_qbit n f qs)) name_p
            ∙ find_qbit-change q.entangled_with f qs p (λ r. refl) found,
        refl,
        refl,
        refl,
        refl,
        refl,
      )
