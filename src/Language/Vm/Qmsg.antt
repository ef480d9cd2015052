-- ===== src/Language/Vm/Qmsg.antt =====
-- The message register of src/vm/byte_vm.c: qmsg_set to qmsg_decode.
use qbit_nova_c.Base.{
  ℕ, ◌+◌, ◌-◌, ◌/◌, ◌^◌, true, false, [], ◌∷◌, ◌++◌, length, take, Text, bit_and, ltb, ◌==◌,
  if◌then◌else◌,
}
use qbit_nova_c.Language.Vm.{
  Vm, print, qmsg_empty, qmsg_not_loaded, qmsg_early_measure, qmsg_early_view, qmsg_early_decode,
  qmsg_unmeasured, qmsg_message, qmsg_digits, qmsg_register, qmsg_decoded, qmsg_packet,
  qmsg_measured_bits,
}

abbrev pub qmsg_max_chars : ℕ
qmsg_max_chars = 128

abbrev pub qmsg_max_bits : ℕ
qmsg_max_bits = 1025

-- ((ch >> b) & 1) ? '1' : '0'
unfoldable pub digit : (ch b : ℕ) → ℕ
digit ch b = if bit_and (ch / 2 ^ b) 1 == 0 then b'0' else b'1'

-- for (int b = 7; b >= 0; b--)
unfoldable pub char_digits : ℕ → Text
unfolding digit
char_digits ch =
    digit ch 7
    ∷ digit ch 6
    ∷ digit ch 5
    ∷ digit ch 4
    ∷ digit ch 3
    ∷ digit ch 2
    ∷ digit ch 1
    ∷ digit ch 0
    ∷ []

-- The digits of the text from `bit_pos`, while there is room for one more character.
unfoldable pub encode_digits : Text → (bit_pos : ℕ) → Text
unfolding char_digits
encode_digits [] bit_pos = []
encode_digits (ch ∷ text) bit_pos =
    let rest = encode_digits text (bit_pos + 8) in
    if ltb bit_pos (qmsg_max_bits - 9) then char_digits ch ++ rest else []

module _ {Double : Type 0} where
  unfoldable pub qmsg_set : (message : Text) → Vm Double → Vm Double
  qmsg_set [] vm = print qmsg_empty vm
  qmsg_set (c ∷ message) vm =
      print (qmsg_message (take (qmsg_max_chars - 1) (c ∷ message))) (record vm {
        qmsg_text = take (qmsg_max_chars - 1) (c ∷ message);
        qmsg_bits = [];
        qmsg_loaded = true;
        qmsg_encoded = false;
        qmsg_measured = false;
      })

  unfoldable pub qmsg_encode : Vm Double → Vm Double
  unfolding encode_digits
  qmsg_encode vm =
      if vm.qmsg_loaded
      then (let digits = encode_digits vm.qmsg_text 0 in
          print (qmsg_packet (length digits)) (
            print (qmsg_digits digits)
              (record vm { qmsg_bits = digits; qmsg_encoded = true; qmsg_measured = false })))
      else print qmsg_not_loaded vm

  unfoldable pub qmsg_measure : Vm Double → Vm Double
  qmsg_measure vm =
      if vm.qmsg_encoded
      then print (qmsg_measured_bits (length vm.qmsg_bits)) (record vm { qmsg_measured = true })
      else print qmsg_early_measure vm

  unfoldable pub qmsg_print_register : Vm Double → Vm Double
  qmsg_print_register vm =
      if vm.qmsg_encoded then print (qmsg_register vm.qmsg_bits) vm else print qmsg_early_view vm

  unfoldable pub qmsg_decode : Vm Double → Vm Double
  qmsg_decode vm =
      if vm.qmsg_encoded
      then print (qmsg_decoded vm.qmsg_text)
          (if vm.qmsg_measured then vm else print qmsg_unmeasured vm)
      else print qmsg_early_decode vm
