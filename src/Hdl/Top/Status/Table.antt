-- ===== src/Hdl/Top/Status/Table.antt =====
-- `parse_sts` over numbers that stand at the places of the status block.
use coil_servo.Base.{ℕ, ◌+◌, ◌*◌, ◌^◌, ◌≤◌, ◌<◌, ◌≡◌, refl, arith, true, [], ◌∷◌}
use coil_servo.Base.Int.{pos}
use coil_servo.Base.Bits.Fields.{field}
use coil_servo.Registers.{sts_fields}
use coil_servo.Registers.Encode.{decode}
use coil_servo.Registers.Parse.{parse_fields}
use coil_servo.Hdl.Top.Status.{words}

-- The table read out, field by field.
parsed :
    (sts : ℕ)
    → parse_fields sts sts_fields
      ≡ ("fsm_state", pos (field sts 0 4))
        ∷ ("fault", pos (field sts 4 1))
        ∷ ("bridge_en", pos (field sts 5 1))
        ∷ ("polarity", pos (field sts 6 1))
        ∷ ("armed", pos (field sts 7 1))
        ∷ ("out_sat", pos (field sts 8 1))
        ∷ ("int_railed", pos (field sts 9 1))
        ∷ ("sp_sign_mismatch", pos (field sts 10 1))
        ∷ ("timeout_hold", pos (field sts 11 1))
        ∷ ("i_meas", decode (field sts 32 22) 22 true)
        ∷ ("sp_active", decode (field sts 64 14) 14 true)
        ∷ ("u14", decode (field sts 96 14) 14 true)
        ∷ ("heartbeat", pos (field sts 128 32))
        ∷ ("fifo_count", pos (field sts 160 32))
        ∷ []
unfolding parse_fields sts_fields decode
parsed sts = refl

module _ (s b4 b5 b6 b7 b8 b9 b10 b11 i sp u hb fifo : ℕ) (hs : s < 8) (h4 : b4 ≤ 1) (h5 : b5 ≤ 1)
    (h6 : b6 ≤ 1) (h7 : b7 ≤ 1) (h8 : b8 ≤ 1) (h9 : b9 ≤ 1) (h10 : b10 ≤ 1) (h11 : b11 ≤ 1)
    (hi : i < 2 ^ 22) (hsp : sp < 2 ^ 14) (hu : u < 2 ^ 14) (hhb : hb < 2 ^ 32)
    (hfifo : fifo < 2 ^ 32) where
  abbrev block : ℕ
  block = words s b4 b5 b6 b7 b8 b9 b10 b11 i sp u hb + fifo * 2 ^ 160

  low_word :
      (field block 0 4 ≡ s)
      × (field block 4 1 ≡ b4)
      × (field block 5 1 ≡ b5)
      × (field block 6 1 ≡ b6)
      × (field block 7 1 ≡ b7)
  low_word = omega arith

  flags :
      (field block 8 1 ≡ b8)
      × (field block 9 1 ≡ b9)
      × (field block 10 1 ≡ b10)
      × (field block 11 1 ≡ b11)
  flags = omega arith

  high_words :
      (field block 32 22 ≡ i)
      × (field block 64 14 ≡ sp)
      × (field block 96 14 ≡ u)
      × (field block 128 32 ≡ hb)
      × (field block 160 32 ≡ fifo)
  high_words = omega arith

  pub table_lem :
      parse_fields block sts_fields
      ≡ ("fsm_state", pos s)
        ∷ ("fault", pos b4)
        ∷ ("bridge_en", pos b5)
        ∷ ("polarity", pos b6)
        ∷ ("armed", pos b7)
        ∷ ("out_sat", pos b8)
        ∷ ("int_railed", pos b9)
        ∷ ("sp_sign_mismatch", pos b10)
        ∷ ("timeout_hold", pos b11)
        ∷ ("i_meas", decode i 22 true)
        ∷ ("sp_active", decode sp 14 true)
        ∷ ("u14", decode u 14 true)
        ∷ ("heartbeat", pos hb)
        ∷ ("fifo_count", pos fifo)
        ∷ []
  table_lem =
      rw
        (
          parsed block,
          low_word.0,
          low_word.1,
          low_word.2,
          low_word.3,
          low_word.4,
          flags.0,
          flags.1,
          flags.2,
          flags.3,
          high_words.0,
          high_words.1,
          high_words.2,
          high_words.3,
          high_words.4,
        )
        refl
