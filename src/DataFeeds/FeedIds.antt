-- ===== src/DataFeeds/FeedIds.antt =====
-- The feed ids of pkg/capabilities/datastreams/types.go: the text of 32 bytes.
use chainlink_common.Base.{
  ℕ, ◌+◌, ◌-◌, ◌*◌, Bool, true, false, ◌&&◌, not, [], ◌∷◌, Option, none, some, length, take, ltb,
  leb, ◌==◌, if◌then◌else◌,
}
use chainlink_common.Base.Bytes.{Bytes}
use chainlink_common.DataFeeds.Feeds.{FeedId}

abbrev pub feed_id_bytes_len : ℕ
feed_id_bytes_len = 32

abbrev within : ℕ → ℕ → ℕ → Bool
within low high c = leb low c && leb c high

-- The value of a hexadecimal digit: `0` to `9`, `a` to `f`, `A` to `F`.
unfoldable pub hex_digit : ℕ → Option ℕ
hex_digit c =
    if within 48 57 c
    then some (c - 48)
    else if within 97 102 c
    then some (c - 87)
    else if within 65 70 c
    then some (c - 55)
    else none

-- The bytes that hex.DecodeString returns, up to an error, and whether there is none.
unfoldable pub decode_hex : Bytes → Bytes × Bool
unfolding hex_digit
decode_hex [] = ([], true)
decode_hex (c ∷ []) = ([], false)
decode_hex (c ∷ (d ∷ text)) =
    let rest = decode_hex text in
    elim (hex_digit c) [
      | none ↦ ([], false)
      | some high ↦ elim (hex_digit d) [
        | none ↦ ([], false)
        | some low ↦ ((high * 16 + low) ∷ rest.0, rest.1)
      ]
    ]

-- `string(id)[2:]`, which panics on a shorter id.
abbrev after_prefix : FeedId → Option Bytes
after_prefix [] = none
after_prefix (c ∷ []) = none
after_prefix (c ∷ (d ∷ text)) = some text

abbrev has_prefix : FeedId → Bool
has_prefix [] = false
has_prefix (c ∷ []) = false
has_prefix (c ∷ (d ∷ text)) = (c == 48) && (d == 120)

-- `strings.ToLower(s) == s`, where any other letter that it changes is no hexadecimal digit either.
abbrev is_lower : Bytes → Bool
is_lower [] = true
is_lower (c ∷ text) = not (within 65 90 c) && is_lower text

-- Whether NewFeedID returns no error.
unfoldable pub is_valid_id : FeedId → Bool
unfolding decode_hex
is_valid_id id =
    (length id == 2 * feed_id_bytes_len + 2)
    && has_prefix id
    && is_lower id
    && elim (after_prefix id) [ none ↦ false | some text ↦ (decode_hex text).1 ]

-- FeedID.Bytes: nothing where it panics, on text for fewer than 32 bytes.
unfoldable pub id_bytes : FeedId → Option Bytes
unfolding decode_hex
id_bytes id = elim (after_prefix id) [
  | none ↦ none
  | some text ↦
      if ltb (length (decode_hex text).0) feed_id_bytes_len
      then none
      else some (take feed_id_bytes_len (decode_hex text).0)
]
