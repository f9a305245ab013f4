-- ===== src/Protocol/Header.antt =====
-- protocol/protocol.go, EncodeHeader and DecodeHeader: inverse on headers whose fields fit.
use Prim.Native.Nat.{bit_and, bit_or}
use mpfpv.Base.{
  ℕ, zero, suc, ◌/◌, ◌%◌, ◌^◌, ◌≤◌, ◌<◌, ◌≡◌, ◌≢◌, ◌↔◌, refl, arith, Bool, true, ◌&&◌, ◌==◌, ==_iff,
  [], ◌∷◌, ◌++◌, some, length, get_or, drop, length-drop, not, if◌then◌else◌, All,
}
use mpfpv.Base.Bytes.{Bytes}
use mpfpv.Base.Results.{ok, err}
use mpfpv.Protocol.Wire.{
  Header, too_short, bad_version, header_size, header_bytes, encode_header, decode_header, version1,
}

-- A 4-bit type, a `uint16` and a `uint32`.
pub record IsHeader (h : Header) : Type 0 where
  pub type_fits : h.type < 16
  pub client_fits : h.client_id < 2 ^ 16
  pub seq_fits : h.seq < 2 ^ 32

-- The test passes every number below a bound.
passes : (ℕ → Bool) → ℕ → Bool
passes test (suc bound) = passes test bound && test bound
passes test zero = true

passes_lem : (test : ℕ → Bool) (x bound : ℕ) → passes test bound ≡ true → x < bound → test x ≡ true
unfolding passes
passes_lem test x (suc bound) every lt = ground (arith, passes_lem test x bound)
passes_lem test x zero every lt = absurd (omega arith)

-- What the first byte keeps of a version and a 4-bit type.
abbrev first_byte : ℕ → ℕ
first_byte t = bit_or version1 (bit_and t 0x0f)

version_table : passes (λ t. bit_and (first_byte t) 0xf0 == version1) 16 ≡ true
unfolding passes
version_table = refl

type_table : passes (λ t. bit_and (first_byte t) 0x0f == t) 16 ≡ true
unfolding passes
type_table = refl

version_kept : (t : ℕ) → t < 16 → bit_and (first_byte t) 0xf0 ≡ version1
version_kept t h = (==_iff _ _).0 (passes_lem _ t 16 version_table h)

type_kept : (t : ℕ) → t < 16 → bit_and (first_byte t) 0x0f ≡ t
type_kept t h = (==_iff _ _).0 (passes_lem _ t 16 type_table h)

pub encode_header_bytes :
    (buf : Bytes) (h : Header)
    → header_size ≤ length buf
    → encode_header buf h ≡ some (header_bytes h ++ drop header_size buf)
unfolding encode_header
encode_header_bytes buf h fits = ground arith

pub decode-header_bytes :
    (h : Header) (rest : Bytes) → IsHeader h → decode_header (header_bytes h ++ rest) ≡ ok h
unfolding decode_header
decode-header_bytes h rest v =
    ground (arith, version_kept h.type v.type_fits, type_kept h.type v.type_fits)

-- A header whose fields fit is written into any buffer of 8 bytes or more, behind which the buffer
-- keeps its bytes and its length, and is read back from it.
pub decode-encode_header :
    (buf : Bytes) (h : Header)
    → header_size ≤ length buf
    → IsHeader h
    → (b : Bytes) × (encode_header buf h ≡ some b)
      × (length b ≡ length buf)
      × (drop header_size b ≡ drop header_size buf)
      × (decode_header b ≡ ok h)
decode-encode_header buf h fits v = (
  header_bytes h ++ drop header_size buf,
  encode_header_bytes buf h fits,
  omega (arith, length-drop 8 buf),
  refl,
  decode-header_bytes h (drop header_size buf) v,
)

byte_table :
    passes
      (λ b.
        (if bit_and b 0xf0 == version1 then b / 16 == 1 else not (b / 16 == 1))
        && (bit_and b 0x0f == b % 16))
      256
    ≡ true
unfolding passes
byte_table = refl

high_half : (b : ℕ) → b < 256 → (bit_and b 0xf0 ≡ version1) ↔ (b / 16 ≡ 1)
high_half b h = ground (arith, passes_lem _ b 256 byte_table h)

low_half : (b : ℕ) → b < 256 → bit_and b 0x0f ≡ b % 16
low_half b h = ground (arith, passes_lem _ b 256 byte_table h)

get_or-lt : (buf : Bytes) (i : ℕ) → All (λ x. x < 256) buf → get_or buf i 0 < 256
get_or-lt [] i h = omega arith
get_or-lt (x ∷ buf) zero h = h.0
get_or-lt (x ∷ buf) (suc i) h = get_or-lt buf i h.1

All-drop : (n : ℕ) (buf : Bytes) → All (λ x. x < 256) buf → All (λ x. x < 256) (drop n buf)
All-drop zero buf h = h
All-drop (suc n) [] h = tt
All-drop (suc n) (x ∷ buf) h = All-drop n buf h.1

-- On bytes, decoding fails with `too_short` exactly below 8 bytes and with `bad_version` exactly where
-- there are 8 and the high half of the first is not 1.
pub decode_header_errors :
    (buf : Bytes)
    → All (λ x. x < 256) buf
    → ((decode_header buf ≡ err too_short) ↔ (length buf < header_size))
      × ((decode_header buf ≡ err bad_version)
          ↔ ((header_size ≤ length buf) × (get_or buf 0 0 / 16 ≢ 1)))
unfolding decode_header
decode_header_errors buf bytes =
    (ground arith, ground (arith, high_half (get_or buf 0 0) (get_or-lt buf 0 bytes)))

-- Where bytes decode to a header, every field fits its integer type, and the type is the low half of
-- the first byte.
pub decode_header-IsHeader :
    (buf : Bytes) (h : Header)
    → All (λ x. x < 256) buf
    → decode_header buf ≡ ok h
    → IsHeader h × (h.type ≡ get_or buf 0 0 % 16)
unfolding decode_header
decode_header-IsHeader buf h bytes e = ground (
  arith,
  low_half (get_or buf 0 0) (get_or-lt buf 0 bytes),
  get_or-lt (drop 2 buf) 0 (All-drop 2 buf bytes),
  get_or-lt (drop 2 buf) 1 (All-drop 2 buf bytes),
  get_or-lt (drop 4 buf) 0 (All-drop 4 buf bytes),
  get_or-lt (drop 4 buf) 1 (All-drop 4 buf bytes),
  get_or-lt (drop 4 buf) 2 (All-drop 4 buf bytes),
  get_or-lt (drop 4 buf) 3 (All-drop 4 buf bytes),
)
