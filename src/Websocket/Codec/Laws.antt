-- ===== src/Websocket/Codec/Laws.antt =====
-- A packet that one side encodes is what the other side decodes, src/websocket/codec.rs.
use minihttp.Base.{
  ℕ, ◌≤◌, ◌≡◌, true, false, some, [], ◌++◌, Bytes, length, arith, returns, ok, length-append,
  drop-append,
}
use minihttp.Buffer.{Buffer}
use minihttp.Websocket.Frame.{Frame, ByteOrder}
use minihttp.Websocket.Parse.{Parsed, parse}
use minihttp.Websocket.RoundTrip.{IsKey}
use minihttp.Websocket.RoundTrip.Frames.{IsFrame, payload, parse-write}
use minihttp.Websocket.Codec.{
  max_packet_size, server_encode, client_encode, server_decode, client_decode, take_frame,
}

module _ ⦃o : Buffer⦄ ⦃e : ByteOrder⦄ where
  -- Taking a frame out leaves what follows it.
  take_frame_rest :
      (opened rest : Bytes) (f : Frame) (n : ℕ) (answer : Bytes × Parsed)
      → answer ≡ (opened ++ rest, ok (some (f, n)))
      → length opened ≡ n
      → take_frame answer ≡ (rest, ok (some f))
  unfolding take_frame
  take_frame_rest opened rest f n answer p len = rw (
    p,
    ← len,
    o.consume_drops (opened ++ rest) (length opened) (omega (arith, length-append opened rest)),
    drop-append opened rest,
  )

  -- A frame whose payload is within the packet limit, encoded by the client with a mask of four
  -- bytes, is decoded by the server to the same frame, and exactly the bytes that follow it stay
  -- in the buffer.
  pub server_decode-client_encode :
      (f : Frame) (buf rest key : Bytes)
      → IsFrame f
      → IsKey key
      → length (payload f) ≤ max_packet_size
      → (wire : Bytes) × (client_encode f buf key ≡ returns (buf ++ wire))
        × (server_decode (wire ++ rest) ≡ (rest, ok (some f)))
  unfolding client_encode server_decode
  server_decode-client_encode f buf rest key hf hk hl =
      let (wire, opened, w, len, p) =
        parse-write f buf rest true key max_packet_size hf hk (omega arith) hl in
      (
        wire,
        w,
        take_frame_rest opened rest f (length wire) (parse (wire ++ rest) max_packet_size true) p
            len,
      )

  -- A frame whose payload is within the packet limit, encoded by the server, is decoded by the
  -- client to the same frame, and exactly the bytes that follow it stay in the buffer.
  pub client_decode-server_encode :
      (f : Frame) (buf rest : Bytes)
      → IsFrame f
      → length (payload f) ≤ max_packet_size
      → (wire : Bytes) × (server_encode f buf ≡ returns (buf ++ wire))
        × (client_decode (wire ++ rest) ≡ (rest, ok (some f)))
  unfolding server_encode client_decode
  client_decode-server_encode f buf rest hf hl =
      let (wire, opened, w, len, p) =
        parse-write f buf rest false [] max_packet_size hf tt (omega arith) hl in
      (
        wire,
        w,
        take_frame_rest opened rest f (length wire) (parse (wire ++ rest) max_packet_size false) p
            len,
      )
