-- ===== src/Tests/Numbers.antt =====
-- src/utils/seq_comparison.h, src/utils/byte_io.h and src/utils/data_buffer_impl.cc at concrete
-- inputs.
use qo_srtp.Common.{◌≡◌, refl, true, [], ◌∷◌, arith}
use qo_srtp.Seq.{is_seq_after_in_range, is_seq_after}
use qo_srtp.ByteIo.{host_bytes, write_big_loop, write_big_endian}
use qo_srtp.DataBuffer.{DataBuffer}
use qo_srtp.DataBuffer.Bounds.{IsValid}

after_wrap : is_seq_after 65530 4 ≡ true
unfolding is_seq_after is_seq_after_in_range
after_wrap = refl

after_second : is_seq_after 4 900 ≡ true
unfolding is_seq_after is_seq_after_in_range
after_second = refl

big_endian_bytes : write_big_endian 4 0x12345678 ≡ 0x12 ∷ 0x34 ∷ 0x56 ∷ 0x78 ∷ []
unfolding write_big_endian write_big_loop host_bytes
big_endian_bytes = refl

-- Three of eight bytes are in use.
abbrev used_three : DataBuffer
used_three = record { size = 3; capacity = 8; buffer = 1 ∷ 2 ∷ 3 ∷ 0 ∷ 0 ∷ 0 ∷ 0 ∷ 0 ∷ [] }

used_three-IsValid : IsValid used_three
used_three-IsValid = record { fits = omega arith; whole = refl; small = omega arith }
