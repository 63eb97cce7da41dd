-- ===== src/Codec/TextLaws.antt =====
-- string.go: which strings come back, given the number of bytes that NewString gives their length.
use chainlink_common.Base.{
  ℕ, zero, suc, ◌+◌, ◌-◌, ◌*◌, ◌/◌, ◌≡◌, ◌<◌, ◌≤◌, refl, ap, [], ◌∷◌, ◌++◌, All, length, ◌==◌, ok,
  err, arith, inl, inr, Bool, true, Bool-cases, ==_iff,
}
use chainlink_common.Codec.Values.{Kind, int8, int16, int32, int64, uint8, count, Every, text}
use chainlink_common.Codec.Bytes.{Bytes, capacity, ByteOrder}
use chainlink_common.Codec.Interface.{invalid_encoding, TypeCodec, Fallible}
use chainlink_common.Codec.Numbers.{bytes_of, int_as}
use chainlink_common.Codec.NumberLaws.{
  IsNumber, in_range, fixed_number-RoundTrips, fixed_number-IsTyped,
}
use chainlink_common.Codec.IntLaws.{Signed}
use chainlink_common.Codec.SliceLaws.{slice-round_trip, encode_slice-decode_slice_refuses}
use chainlink_common.Codec.Text.{
  bit_len, header_size, int_of_size, to_values, of_values, to_text, encode_string, decode_string,
  string_codec, new_string,
}

pow2 : ℕ → ℕ
pow2 zero = 1
pow2 (suc n) = 2 * pow2 n

bit_len-pow2 : (fuel n : ℕ) → n < pow2 fuel → n < pow2 (bit_len fuel n)
unfolding bit_len pow2
bit_len-pow2 zero n h = h
bit_len-pow2 (suc fuel) n h = elim (Bool-cases (n == 0)) [
  | inl e ↦ rw e (omega (arith, (==_iff n 0).0 e))
  | inr e ↦ rw e (omega (arith, bit_len-pow2 fuel (n / 2) (omega arith)))
]

pow2_mono : (a d : ℕ) → pow2 a ≤ pow2 (d + a)
unfolding pow2
pow2_mono a zero = let e : 0 + a ≡ a = omega arith in rw e (omega arith)
pow2_mono a (suc d) =
    let e : suc d + a ≡ suc (d + a) = omega arith in rw e (omega (arith, pow2_mono a d))

capacity-pow2 : (n : ℕ) → pow2 (8 * n) ≡ capacity n
unfolding pow2
capacity-pow2 zero = refl
capacity-pow2 (suc n) =
    let e : 8 * suc n ≡ suc (suc (suc (suc (suc (suc (suc (suc (8 * n)))))))) = omega arith in
    rw e (omega (arith, capacity-pow2 n))

-- The largest length fits the header.
capacity-header_size :
    (max_length : ℕ) → max_length < capacity 8 → max_length < capacity (header_size max_length)
unfolding header_size
capacity-header_size m h =
    let b = bit_len 64 m in
    let h64 : m < pow2 64 = rw (capacity-pow2 8) h in
    let enough : 8 * ((b + 7) / 8) ≡ (8 * ((b + 7) / 8) - b) + b = omega arith in
    let grown : pow2 b ≤ pow2 (8 * ((b + 7) / 8)) =
      rw enough (pow2_mono b (8 * ((b + 7) / 8) - b)) in
    omega (arith, bit_len-pow2 64 m h64, grown, capacity-pow2 ((b + 7) / 8))

int_of_size_lem :
    (order : ByteOrder) (k : Kind) (other : Fallible TypeCodec)
    → Signed k
    → int_of_size order (bytes_of k) other ≡ ok (int_as order k)
unfolding int_of_size
int_of_size_lem order int8 other s = refl
int_of_size_lem order int16 other s = refl
int_of_size_lem order int32 other s = refl
int_of_size_lem order int64 other s = refl
int_of_size_lem order k other s = absurd s

abbrev pub IsByte : ℕ → Type 0
IsByte b = b < 256

of_values-to_values : (s : Bytes) → of_values (to_values s) ≡ ok s
unfolding of_values to_values
of_values-to_values [] = refl
of_values-to_values (b ∷ s) = rw (of_values-to_values s)

count-to_values : (s : Bytes) → count (to_values s) ≡ length s
unfolding to_values
count-to_values [] = refl
count-to_values (b ∷ s) = ap suc (count-to_values s)

to_values-IsNumber : (s : Bytes) → All IsByte s → Every (IsNumber uint8) (to_values s)
unfolding to_values
to_values-IsNumber [] h = h
to_values-IsNumber (b ∷ s) h = (in_range b h.0, to_values-IsNumber s h.1)

module _ (makes : ℕ → Bool) (order : ByteOrder) (k : Kind) (signed : Signed k) (max_length : ℕ)
    (other : Fallible TypeCodec) (s into rest : Bytes)
    (header : header_size max_length ≡ bytes_of k) (bytes : All IsByte s)
    (allowed : length s ≤ max_length) where
  new_string_lem :
      new_string makes order max_length other
      ≡ ok (string_codec makes order (int_as order k) max_length)
  unfolding new_string
  new_string_lem = rw (header, int_of_size_lem order k other signed)

  -- The codec that NewString makes brings back every string of bytes that is no longer than the
  -- largest length allowed and shorter than half of what the bytes of its header can count, where
  -- that header takes 1, 2, 4 or 8 bytes and the bytes can be allocated.
  pub new_string-round_trip :
      length s < capacity (bytes_of k) / 2
      → makes (length s) ≡ true
      → (codec : TypeCodec) × (enc : Bytes) × (new_string makes order max_length other ≡ ok codec)
        × (codec.encode (text s) into ≡ ok (into ++ enc))
        × (codec.decode (enc ++ rest) ≡ ok (text s, rest))
  unfolding encode_string decode_string to_text
  new_string-round_trip short room =
      let (enc, write, read) =
        slice-round_trip order k signed makes (fixed_number-RoundTrips order uint8) (to_values s)
          into rest (fixed_number-IsTyped order uint8) (rw (count-to_values s) short)
          (rw (count-to_values s) room) (to_values-IsNumber s bytes) in
      (
        string_codec makes order (int_as order k) max_length,
        enc,
        new_string_lem,
        ground arith,
        ground (arith, of_values-to_values s),
      )

  -- A string no longer than the largest length allowed, but of at least half of what the bytes of
  -- the header can count, is encoded without an error and cannot be decoded by the same codec. The
  -- header takes 1, 2, 4 or 8 bytes, and the largest length fits a uint.
  pub new_string-decode_refuses :
      capacity (bytes_of k) / 2 ≤ length s
      → max_length < capacity 8
      → (codec : TypeCodec) × (enc : Bytes) × (new_string makes order max_length other ≡ ok codec)
        × (codec.encode (text s) into ≡ ok (into ++ enc))
        × (codec.decode (enc ++ rest) ≡ err invalid_encoding)
  unfolding encode_string decode_string
  new_string-decode_refuses long fits =
      let most : length s < capacity (bytes_of k) =
        rw (← header) (omega (arith, capacity-header_size max_length fits)) in
      let (enc, write, read) =
        encode_slice-decode_slice_refuses order k signed makes (fixed_number-RoundTrips order uint8)
          (to_values s) into rest (rw (count-to_values s) long) (rw (count-to_values s) most)
          (to_values-IsNumber s bytes) in
      (
        string_codec makes order (int_as order k) max_length,
        enc,
        new_string_lem,
        ground arith,
        ground arith,
      )
