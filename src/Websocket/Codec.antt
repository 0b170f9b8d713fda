-- ===== src/Websocket/Codec.antt =====
-- The codecs of src/websocket/codec.rs. A `Packet` is a `Frame` that owns its bytes.
pub mod Laws
use minihttp.Base.{
  ℕ, ◌*◌, ◌^◌, Bool, true, false, Option, none, some, [], Bytes, Run, Result, ok, err,
}
use minihttp.Buffer.{Buffer, consume}
use minihttp.Websocket.Frame.{Frame, ErrorEnum, ByteOrder}
use minihttp.Websocket.Parse.{Parsed, parse}
use minihttp.Websocket.Write.{write}

-- `10 << 20`
abbrev pub max_packet_size : ℕ
max_packet_size = 10 * 2 ^ 20

module _ ⦃o : Buffer⦄ where
  -- The server does not mask.
  unfoldable pub server_encode : Frame → Bytes → Run Bytes
  server_encode data' buf = write data' buf false []

  -- The client masks with fresh random bytes, the last argument.
  unfoldable pub client_encode : Frame → Bytes → Bytes → Run Bytes
  client_encode data' buf key = write data' buf true key

  -- What both decoders do with the answer of the parser: an error is passed on, a frame is taken out of
  -- the buffer.
  take_frame : Bytes × Parsed → Bytes × Result ErrorEnum (Option Frame)
  take_frame (buf, err e) = (buf, err e)
  take_frame (buf, ok none) = (buf, ok none)
  take_frame (buf, ok (some (p, b))) = (consume buf b, ok (some p))

module _ ⦃o : Buffer⦄ ⦃e : ByteOrder⦄ where
  unfoldable pub server_decode : Bytes → Bytes × Result ErrorEnum (Option Frame)
  unfolding take_frame
  server_decode buf = take_frame (parse buf max_packet_size true)

  unfoldable pub client_decode : Bytes → Bytes × Result ErrorEnum (Option Frame)
  unfolding take_frame
  client_decode buf = take_frame (parse buf max_packet_size false)
