-- ===== src/Websocket/Frame.antt =====
-- Frames, and the errors that parsing one raises: src/websocket/zero_copy.rs and
-- src/websocket/error.rs.
use minihttp.Base.{
  ℕ, ◌+◌, ◌*◌, ◌%◌, ◌<◌, ◌≡◌, refl, [], ◌∷◌, ◌++◌, Bytes, length, take, drop, get_or, bit_xor,
}

-- Text is kept as its bytes.
pub data Frame : Type 0 where
  ping pong text binary : Bytes → Frame
  close : ℕ → Bytes → Frame

-- The variants that `Frame::parse` returns; the reason of a UTF-8 error is left out.
pub data ErrorEnum : Type 0 where
  invalid_utf8 : ErrorEnum
  invalid_opcode : ℕ → ErrorEnum
  unmasked fragmented too_long : ErrorEnum

abbrev pub IsByte : ℕ → Type 0
IsByte b = b < 256

-- The number that bytes stand for, the first the most significant.
abbrev pub big_endian : Bytes → ℕ → ℕ
big_endian [] acc = acc
big_endian (b ∷ bs) acc = big_endian bs (acc * 256 + b)

-- The reads of the crate byteorder, which the code only calls.
pub record ByteOrder : Type 0 where
  pub read_u16 : Bytes → ℕ
  pub read_u64 : Bytes → ℕ
  pub read_u16_lem : (bytes : Bytes) → length bytes ≡ 2 → read_u16 bytes ≡ big_endian bytes 0
  pub read_u64_lem : (bytes : Bytes) → length bytes ≡ 8 → read_u64 bytes ≡ big_endian bytes 0

abbrev pub big_endian_order : ByteOrder
big_endian_order = record {
  read_u16 = λ bytes. big_endian bytes 0;
  read_u64 = λ bytes. big_endian bytes 0;
  read_u16_lem = λ bytes h. refl;
  read_u64_lem = λ bytes h. refl;
}

-- `for idx in 0..n { slice[idx] ^= mask[idx % 4] }`, from index `idx` on.
unfoldable pub xor_mask : Bytes → ℕ → Bytes → Bytes
xor_mask mask idx [] = []
xor_mask mask idx (x ∷ xs) = bit_xor x (get_or mask (idx % 4) 0) ∷ xor_mask mask (idx + 1) xs

-- The same loop over `buf[start..start + size]`.
abbrev pub xor_range : Bytes → Bytes → ℕ → ℕ → Bytes
xor_range mask buf start size =
    take start buf ++ (xor_mask mask 0 (take size (drop start buf)) ++ drop (start + size) buf)
