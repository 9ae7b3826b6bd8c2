-- ===== src/Tunnel/Frame.antt =====
-- internal/tunnel/frame.go: EncodeFrame and DecodeFrame, over the bytes left in a bytes.Reader.
pub mod RoundTrip
mod Tests
use etunl_cli.Base.{
  ℕ, ◌+◌, ◌*◌, ◌/◌, ◌%◌, ◌^◌, ◌<◌, ◌≤◌, List, [], ◌∷◌, ◌++◌, Result, ok, err, ◌>>=◌, length, take,
  drop, get_or, ltb, ◌==◌, if◌then◌else◌, All,
}
use etunl_cli.Base.Bytes.{Bytes, IsByte}

abbrev pub frame_stream_open : ℕ
frame_stream_open = 0x01

abbrev pub frame_stream_data : ℕ
frame_stream_data = 0x02

abbrev pub frame_stream_close : ℕ
frame_stream_close = 0x03

abbrev pub frame_route_sync : ℕ
frame_route_sync = 0x04

abbrev pub frame_ping : ℕ
frame_ping = 0x05

abbrev pub frame_pong : ℕ
frame_pong = 0x06

-- 1 MB
abbrev pub max_frame_size : ℕ
max_frame_size = 1024 * 1024

-- 1 + 4 + 4
abbrev pub header_size : ℕ
header_size = 9

pub record Frame : Type 0 where
  pub type : ℕ
  pub stream_id : ℕ
  pub payload : Bytes

-- The values that the Go type can hold: a byte, a uint32 and bytes.
pub record IsFrame (f : Frame) : Type 0 where
  pub type_fits : f.type < 256
  pub id_fits : f.stream_id < 2 ^ 32
  pub payload_bytes : All IsByte f.payload

-- `binary.BigEndian.PutUint32` of `v`, with the bytes that follow.
pub put_u32 : ℕ → Bytes → Bytes
put_u32 v rest = (v / 2 ^ 24 % 256) ∷ (v / 2 ^ 16 % 256) ∷ (v / 2 ^ 8 % 256) ∷ (v % 256) ∷ rest

be32 : ℕ → ℕ → ℕ → ℕ → ℕ
be32 a b c d = ((a * 256 + b) * 256 + c) * 256 + d

-- `binary.BigEndian.Uint32` of the four bytes at `i`.
u32_at : Bytes → ℕ → ℕ
u32_at b i = be32 (get_or b i 0) (get_or b (i + 1) 0) (get_or b (i + 2) 0) (get_or b (i + 3) 0)

-- `uint32(len(f.Payload))` wraps around at 2 ^ 32.
pub encode_frame : Frame → Bytes
encode_frame f = f.type ∷ put_u32 f.stream_id (put_u32 (length f.payload % 2 ^ 32) f.payload)

pub data DecodeError : Type 0 where
  eof unexpected_eof : DecodeError
  frame_too_large : ℕ → DecodeError

-- `io.ReadFull` into a buffer of `n` bytes: the bytes, and what the reader has left.
pub read_full : ℕ → Bytes → Result DecodeError (Bytes × Bytes)
read_full n r =
    if ltb (length r) n
    then (if length r == 0 then err eof else err unexpected_eof)
    else ok (take n r, drop n r)

pub read_payload : ℕ → Bytes → Result DecodeError (Bytes × Bytes)
unfolding read_full
read_payload len r = if ltb 0 len then read_full len r else ok ([], r)

-- The frame, and what the reader has left.
pub decode_frame : Bytes → Result DecodeError (Frame × Bytes)
unfolding u32_at
decode_frame r = do
  (header, r1) ← read_full header_size r
  let len = u32_at header 5
  if ltb max_frame_size len then err (frame_too_large len) else do
    (payload, r2) ← read_payload len r1
    ok (record { type = get_or header 0 0; stream_id = u32_at header 1; payload = payload }, r2)
