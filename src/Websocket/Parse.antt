-- ===== src/Websocket/Parse.antt =====
-- `Frame::parse` of src/websocket/zero_copy.rs. It returns the buffer too, since it unmasks the
-- payload in place.
use minihttp.Base.{
  ℕ, ◌+◌, ◌-◌, Bool, true, false, not, Option, none, some, [], Bytes, length, take, drop, get_or,
  ltb, ◌==◌, if◌then◌else◌, Result, ok, err, bit_and,
}
use minihttp.Utf8.{is_utf8}
use minihttp.Websocket.Frame.{
  Frame, ping, pong, text, binary, close, ErrorEnum, invalid_utf8, invalid_opcode, unmasked,
  fragmented, too_long, ByteOrder, xor_range,
}

-- A frame with the number of bytes that it takes, or `none` if it is not complete.
abbrev pub Parsed : Type 0
Parsed = Result ErrorEnum (Option (Frame × ℕ))

-- `mask != masked`
abbrev differ : Bool → Bool → Bool
differ true b = not b
differ false b = b

module _ ⦃e : ByteOrder⦄ where
  -- The size of the payload and where the size field ends; `none` is `return Ok(None)`.
  unfoldable pub size_field : Bytes → Option (ℕ × ℕ)
  size_field buf =
      let size = bit_and (get_or buf 1 0) 0x7f in
      if size == 126
      then if ltb (length buf) 4 then none else some (e.read_u16 (take 2 (drop 2 buf)), 4)
      else if size == 127
      then if ltb (length buf) 10 then none else some (e.read_u64 (take 8 (drop 2 buf)), 10)
      else some (size, 2)

  abbrev text_or : Bytes → Frame → ℕ → Parsed
  text_or data' frame total = if is_utf8 data' then ok (some (frame, total)) else err invalid_utf8

  -- The `match opcode`, and the last line with it.
  unfoldable pub decode : ℕ → Bytes → ℕ → Parsed
  decode opcode data' total =
      if opcode == 0x9
      then ok (some (ping data', total))
      else if opcode == 0xA
      then ok (some (pong data', total))
      else if opcode == 0x1
      then text_or data' (text data') total
      else if opcode == 0x2
      then ok (some (binary data', total))
      else if opcode == 0x8
      then if ltb (length data') 2
        then ok (some (close 1006 [], total))
        else text_or (drop 2 data') (close (e.read_u16 (take 2 data')) (drop 2 data')) total
      else err (invalid_opcode opcode)

  -- From the test of the FIN bit on: the whole frame is in the buffer.
  unfoldable pub open_frame : Bytes → Bool → ℕ → ℕ → Bytes × Parsed
  open_frame buf masked start size =
      let fin = not (bit_and (get_or buf 0 0) 0x80 == 0) in
      let opcode = bit_and (get_or buf 0 0) 0x0f in
      let mask = not (bit_and (get_or buf 1 0) 0x80 == 0) in
      let buf' : Bytes =
        if mask then xor_range (take 4 (drop (start - 4) buf)) buf start size else buf in
      if not fin
      then (buf, err fragmented)
      else if differ mask masked
      then (buf, err unmasked)
      else (buf', decode opcode (take size (drop start buf')) (start + size))

  -- From the test of the limit on. The sum does not overflow a usize for a limit below 2 ^ 64 - 14.
  sized_frame : Bytes → ℕ → Bool → Option (ℕ × ℕ) → Bytes × Parsed
  sized_frame buf limit masked none = (buf, ok none)
  sized_frame buf limit masked (some (size, fsize)) =
      let start = fsize + (if masked then 4 else 0) in
      if ltb limit size
      then (buf, err too_long)
      else if ltb (length buf) (start + size)
      then (buf, ok none)
      else open_frame buf masked start size

  unfoldable pub parse : Bytes → ℕ → Bool → Bytes × Parsed
  unfolding sized_frame
  parse buf limit masked =
      if ltb (length buf) 2 then (buf, ok none) else sized_frame buf limit masked (size_field buf)
