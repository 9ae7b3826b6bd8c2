-- ===== src/Tunnel/Frame/Tests.antt =====
-- Runs of the frame codec, and its theorems at concrete inputs.
use etunl_cli.Base.{◌≡◌, refl, ◌^◌, ◌<◌, ◌≤◌, [], ◌∷◌, ◌++◌, ok, err, arith, length}
use etunl_cli.Tunnel.Frame.RoundTrip.{decode-encode, decode_sound}
use etunl_cli.Tunnel.Frame.{
  Frame, max_frame_size, encode_frame, decode_frame, put_u32, be32, read_full, read_payload,
  unexpected_eof, frame_too_large,
}

abbrev hello : Frame
hello = record { type = 2; stream_id = 258; payload = 7 ∷ 8 ∷ [] }

encode_hello : encode_frame hello ≡ 2 ∷ 0 ∷ 0 ∷ 1 ∷ 2 ∷ 0 ∷ 0 ∷ 0 ∷ 2 ∷ 7 ∷ 8 ∷ []
unfolding encode_frame put_u32
encode_hello = refl

decode_cut : decode_frame (2 ∷ 0 ∷ 0 ∷ 1 ∷ 2 ∷ 0 ∷ 0 ∷ 0 ∷ 2 ∷ 7 ∷ []) ≡ err unexpected_eof
unfolding decode_frame be32 read_full read_payload
decode_cut = refl

decode_large :
    decode_frame (2 ∷ 0 ∷ 0 ∷ 1 ∷ 2 ∷ 0 ∷ 16 ∷ 0 ∷ 1 ∷ []) ≡ err (frame_too_large 1048577)
unfolding decode_frame be32 read_full read_payload
decode_large = refl

decode-encode_example : decode_frame (encode_frame hello ++ 1 ∷ []) ≡ ok (hello, 1 ∷ [])
decode-encode_example = decode-encode hello (1 ∷ []) (omega arith) (omega arith)

decode_hello :
    decode_frame (2 ∷ 0 ∷ 0 ∷ 1 ∷ 2 ∷ 0 ∷ 0 ∷ 0 ∷ 2 ∷ 7 ∷ 8 ∷ 9 ∷ []) ≡ ok (hello, 9 ∷ [])
unfolding decode_frame be32 read_full read_payload
decode_hello = refl

decode_sound_example :
    (2 ∷ 0 ∷ 0 ∷ 1 ∷ 2 ∷ 0 ∷ 0 ∷ 0 ∷ 2 ∷ 7 ∷ 8 ∷ 9 ∷ [] ≡ encode_frame hello ++ 9 ∷ [])
    × (length hello.payload ≤ max_frame_size)
    × (hello.stream_id < 2 ^ 32)
decode_sound_example =
    decode_sound (2 ∷ 0 ∷ 0 ∷ 1 ∷ 2 ∷ 0 ∷ 0 ∷ 0 ∷ 2 ∷ 7 ∷ 8 ∷ 9 ∷ []) hello (9 ∷ []) (omega arith)
      decode_hello
