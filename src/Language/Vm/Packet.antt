-- ===== src/Language/Vm/Packet.antt =====
-- The message register holds the digits of its text.
use qbit_nova_c.Base.{
  ℕ, zero, suc, ◌+◌, ◌-◌, ◌*◌, ◌/◌, ◌%◌, ◌^◌, ◌≤◌, ◌<◌, ◌≡◌, ◌≢◌, ◌∙◌, ap, refl, true, false, [],
  ◌∷◌, ◌++◌, length, take, Text, arith, ltb,
}
use qbit_nova_c.Base.Bits.{bit, bit_and-pow}
use qbit_nova_c.Language.Vm.{Vm}
use qbit_nova_c.Language.Vm.Qmsg.{
  digit, char_digits, encode_digits, qmsg_set, qmsg_encode, qmsg_max_chars, qmsg_max_bits,
}

-- Each number is that of a byte.
abbrev pub IsBytes : Text → Type 0
IsBytes [] = Unit
IsBytes (ch ∷ text) = (ch < 256) × IsBytes text

-- Reading: eight digits to a character, the most significant first.
unfoldable pub read_digits : Text → Text
read_digits (a ∷ b ∷ c ∷ d ∷ e ∷ f ∷ g ∷ h ∷ rest) =
    ((a - 48) * 128
      + (b - 48) * 64
      + (c - 48) * 32
      + (d - 48) * 16
      + (e - 48) * 8
      + (f - 48) * 4
      + (g - 48) * 2
      + (h - 48))
    ∷ read_digits rest
read_digits _ = []

digit_lem : (ch b : ℕ) → digit ch b ≡ 48 + ch / 2 ^ b % 2
unfolding digit bit
digit_lem ch b = ground (arith, bit_and-pow 0 (ch / 2 ^ b))

digit-sub : (ch b : ℕ) → digit ch b - 48 ≡ ch / 2 ^ b % 2
digit-sub ch b = omega (arith, digit_lem ch b)

byte-bits :
    (ch : ℕ)
    → ch < 256
    → ch / 2 ^ 7 % 2 * 128
        + ch / 2 ^ 6 % 2 * 64
        + ch / 2 ^ 5 % 2 * 32
        + ch / 2 ^ 4 % 2 * 16
        + ch / 2 ^ 3 % 2 * 8
        + ch / 2 ^ 2 % 2 * 4
        + ch / 2 ^ 1 % 2 * 2
        + ch / 2 ^ 0 % 2
      ≡ ch
byte-bits ch h = omega arith

read-char_digits :
    (ch : ℕ) (rest : Text) → ch < 256 → read_digits (char_digits ch ++ rest) ≡ ch ∷ read_digits rest
unfolding char_digits read_digits
read-char_digits ch rest h =
    ap (λ (n : ℕ). n ∷ read_digits rest)
      (rw
        (
          digit-sub ch 7,
          digit-sub ch 6,
          digit-sub ch 5,
          digit-sub ch 4,
          digit-sub ch 3,
          digit-sub ch 2,
          digit-sub ch 1,
          digit-sub ch 0,
        )
        (byte-bits ch h))

read-encode_digits :
    (text : Text) (p : ℕ)
    → IsBytes text
    → 8 * length text + p ≤ 1016
    → read_digits (encode_digits text p) ≡ text
unfolding encode_digits
read-encode_digits [] p bytes h = unfold read_digits in refl
read-encode_digits (ch ∷ text) p bytes h =
    let fits : ltb p (qmsg_max_bits - 9) ≡ true = ground arith in
    rw (fits, encode_digits)
      (read-char_digits ch (encode_digits text (p + 8)) bytes.0
        ∙ ap (λ (t : Text). ch ∷ t) (read-encode_digits text (p + 8) bytes.1 (omega arith)))

length-take : (n : ℕ) (text : Text) → length (take n text) ≤ n
length-take zero text = omega arith
length-take (suc n) [] = omega arith
length-take (suc n) (c ∷ text) = omega (arith, length-take n text)

take-IsBytes : (n : ℕ) (text : Text) → IsBytes text → IsBytes (take n text)
take-IsBytes zero text h = tt
take-IsBytes (suc n) [] h = tt
take-IsBytes (suc n) (c ∷ text) h = (h.0, take-IsBytes n text h.1)

-- After `qmsg` with a text that is not empty, `encode qmsg` leaves digits that read back as the
-- first 127 bytes of the text, and these are the text kept; the register is encoded and unmeasured.
pub read-qmsg_encode :
    {Double : Type 0} (message : Text) (vm : Vm Double)
    → message ≢ []
    → IsBytes message
    → (read_digits (qmsg_encode (qmsg_set message vm)).qmsg_bits
        ≡ take (qmsg_max_chars - 1) message)
      × ((qmsg_encode (qmsg_set message vm)).qmsg_text ≡ take (qmsg_max_chars - 1) message)
      × ((qmsg_encode (qmsg_set message vm)).qmsg_encoded ≡ true)
      × ((qmsg_encode (qmsg_set message vm)).qmsg_measured ≡ false)
unfolding qmsg_encode qmsg_set
read-qmsg_encode [] vm h bytes = absurd (h refl)
read-qmsg_encode (c ∷ message) vm h bytes = (
  read-encode_digits (take 127 (c ∷ message)) 0 (take-IsBytes 127 (c ∷ message) bytes)
      (omega (arith, length-take 127 (c ∷ message))),
  refl,
  refl,
  refl,
)
