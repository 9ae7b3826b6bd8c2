-- ===== src/Tunnel/Frame/RoundTrip.antt =====
-- EncodeFrame and DecodeFrame are inverse to one another.
use etunl_cli.Base.{
  ℕ, ◌+◌, ◌/◌, ◌%◌, ◌^◌, ◌<◌, ◌≤◌, ◌≡◌, ◌≢◌, refl, ap, [], ◌∷◌, ◌++◌, ok, err, ◌>>=◌, length, take,
  drop, length-append, take-append, drop-append, take-append-drop, length-take, ltb, if◌then◌else◌,
  All, arith,
}
use etunl_cli.Base.Bytes.{Bytes, IsByte}
use etunl_cli.Tunnel.Frame.{
  Frame, put_u32, be32, encode_frame, frame_too_large, read_full, read_payload, decode_frame,
  max_frame_size,
}

-- Reading a header that is there whole.
read_full_ok : (n : ℕ) (r : Bytes) → n ≤ length r → read_full n r ≡ ok (take n r, drop n r)
unfolding read_full
read_full_ok n r h = ground arith

read_payload-append : (p rest : Bytes) → read_payload (length p) (p ++ rest) ≡ ok (p, rest)
unfolding read_payload read_full
read_payload-append [] rest = refl
read_payload-append (c ∷ p) rest =
    ground (arith, length-append p rest, take-append p rest, drop-append p rest)

small_mod : (n : ℕ) → n < 2 ^ 32 → n % 2 ^ 32 ≡ n
small_mod n h = omega arith

be32-put :
    (v : ℕ)
    → v < 2 ^ 32
    → be32 (v / 2 ^ 24 % 256) (v / 2 ^ 16 % 256) (v / 2 ^ 8 % 256) (v % 256) ≡ v
unfolding be32
be32-put v h = omega arith

be32-lt : (a b c d : ℕ) → a < 256 → b < 256 → c < 256 → d < 256 → be32 a b c d < 2 ^ 32
unfolding be32
be32-lt a b c d ha hb hc hd = omega arith

put-be32 :
    (a b c d : ℕ) (rest : Bytes)
    → a < 256
    → b < 256
    → c < 256
    → d < 256
    → put_u32 (be32 a b c d) rest ≡ a ∷ b ∷ c ∷ d ∷ rest
unfolding be32 put_u32
put-be32 a b c d rest ha hb hc hd = ground arith

-- What DecodeFrame does once the nine header bytes are there.
header_parts :
    (t a b c d e f g h : ℕ) (tail : Bytes)
    → decode_frame (t ∷ a ∷ b ∷ c ∷ d ∷ e ∷ f ∷ g ∷ h ∷ tail) ≡ (
        let len : ℕ = be32 e f g h in
        if ltb max_frame_size len
        then err (frame_too_large len)
        else (read_payload len tail >>= λ q.
            ok (record { type = t; stream_id = be32 a b c d; payload = q.0 }, q.1)))
unfolding decode_frame
header_parts t a b c d e f g h tail =
    rw (read_full_ok 9 (t ∷ a ∷ b ∷ c ∷ d ∷ e ∷ f ∷ g ∷ h ∷ tail) (omega arith)) refl

-- A frame of at most 1 MB is read back whole, and the reader is left behind it.
pub decode-encode :
    (f : Frame) (rest : Bytes)
    → f.stream_id < 2 ^ 32
    → length f.payload ≤ max_frame_size
    → decode_frame (encode_frame f ++ rest) ≡ ok (f, rest)
unfolding encode_frame put_u32
decode-encode f rest hid hlen =
    rw
      (
        header_parts,
        be32-put f.stream_id hid,
        small_mod (length f.payload) (omega arith),
        be32-put (length f.payload) (omega arith),
      )
      (ground (arith, read_payload-append f.payload rest))

-- A longer payload is refused by the reader, up to the wrap-around of its length.
pub decode-encode_too_large :
    (f : Frame) (rest : Bytes)
    → max_frame_size < length f.payload
    → length f.payload < 2 ^ 32
    → decode_frame (encode_frame f ++ rest) ≡ err (frame_too_large (length f.payload))
unfolding encode_frame put_u32
decode-encode_too_large f rest big fits =
    rw (header_parts, small_mod (length f.payload) fits, be32-put (length f.payload) fits)
      (ground arith)

read_payload_sound :
    (n : ℕ) (r p rest : Bytes) → read_payload n r ≡ ok (p, rest) → (r ≡ p ++ rest) × (length p ≡ n)
unfolding read_payload read_full
read_payload_sound n r p rest h = ground (arith, take-append-drop n r, length-take n r)

-- Fewer than nine bytes are no frame.
decode_short : (r : Bytes) (q : Frame × Bytes) → length r < 9 → decode_frame r ≢ ok q
unfolding decode_frame read_full
decode_short r q h = ground arith

frame_parts :
    (t a b c d e f g h : ℕ) (tail : Bytes) (q : Frame) (rest : Bytes)
    → decode_frame (t ∷ a ∷ b ∷ c ∷ d ∷ e ∷ f ∷ g ∷ h ∷ tail) ≡ ok (q, rest)
    → (q.type ≡ t)
      × (q.stream_id ≡ be32 a b c d)
      × (be32 e f g h ≤ max_frame_size)
      × (read_payload (be32 e f g h) tail ≡ ok (q.payload, rest))
frame_parts t a b c d e f g h tail q rest eq = ground (arith, header_parts t a b c d e f g h tail)

encoding_eq :
    (t a b c d e f g h : ℕ) (tail : Bytes) (q : Frame) (rest : Bytes)
    → All IsByte (t ∷ a ∷ b ∷ c ∷ d ∷ e ∷ f ∷ g ∷ h ∷ tail)
    → q.type ≡ t
    → q.stream_id ≡ be32 a b c d
    → length q.payload ≡ be32 e f g h
    → tail ≡ q.payload ++ rest
    → t ∷ a ∷ b ∷ c ∷ d ∷ e ∷ f ∷ g ∷ h ∷ tail ≡ encode_frame q ++ rest
unfolding encode_frame
encoding_eq t a b c d e f g h tail q rest bs et ei el et' =
    rw
      (
        et,
        ei,
        el,
        small_mod (be32 e f g h)
            (be32-lt e f g h (omega arith) (omega arith) (omega arith) (omega arith)),
        put-be32 e f g h q.payload (omega arith) (omega arith) (omega arith) (omega arith),
        put-be32 a b c d (e ∷ f ∷ g ∷ h ∷ q.payload) (omega arith) (omega arith) (omega arith)
            (omega arith),
      )
      (cc)

-- Whatever DecodeFrame accepts is the encoding of the frame that it returns, followed by what it
-- leaves; the frame fits the wire format and is at most 1 MB.
pub decode_sound :
    (r : Bytes) (f : Frame) (rest : Bytes)
    → All IsByte r
    → decode_frame r ≡ ok (f, rest)
    → (r ≡ encode_frame f ++ rest) × (length f.payload ≤ max_frame_size) × (f.stream_id < 2 ^ 32)
decode_sound (t ∷ a ∷ b ∷ c ∷ d ∷ e ∷ f ∷ g ∷ h ∷ tail) q rest bs eq =
    let (et, ei, el, ep) = frame_parts t a b c d e f g h tail q rest eq in
    let (split, len) = read_payload_sound (be32 e f g h) tail q.payload rest ep in
    (
      encoding_eq t a b c d e f g h tail q rest bs et ei len split,
      omega arith,
      omega (arith, be32-lt a b c d),
    )
decode_sound r q rest bs eq = absurd (decode_short r (q, rest) (omega arith) eq)

pub length-encode : (f : Frame) → length (encode_frame f) ≡ 9 + length f.payload
unfolding encode_frame put_u32
length-encode f = omega arith

-- What DecodeFrame takes: the nine bytes of the header and the payload.
pub decode_takes :
    (r : Bytes) (f : Frame) (rest : Bytes)
    → decode_frame r ≡ ok (f, rest)
    → length rest + length f.payload + 9 ≡ length r
decode_takes (t ∷ a ∷ b ∷ c ∷ d ∷ e ∷ f ∷ g ∷ h ∷ tail) q rest eq =
    let (et, ei, el, ep) = frame_parts t a b c d e f g h tail q rest eq in
    let (split, len) = read_payload_sound (be32 e f g h) tail q.payload rest ep in
    omega (arith, ap length split, length-append q.payload rest)
decode_takes r q rest eq = absurd (decode_short r (q, rest) (omega arith) eq)

-- EncodeFrame writes at least one byte.
pub encode-cons : (f : Frame) → (b : ℕ) × (bs : Bytes) × (encode_frame f ≡ b ∷ bs)
unfolding encode_frame
encode-cons f = (_, _, refl)
