-- ===== src/Senml/Pubkey.antt =====
-- src/lwm2m/bootstrap.rs: the public key in a device's answer to GET /0/0, and the plaintext that the
-- network key is encrypted in.
use Prim.Native.Nat.{bit_and, bit_or}
use smart_garden_gateway_lwm.Prelude.{
  ℕ, zero, suc, ◌-◌, ◌*◌, ◌/◌, ◌%◌, ◌^◌, Bool, true, false, Option, none, some, [], ◌∷◌, ◌++◌,
  Bytes, bytes, leb, ◌==◌, if◌then◌else◌, length, take, drop, list_dec, ℕ_discrete, Outcome, ok,
  panic, ◌>>=◌,
}
use smart_garden_gateway_lwm.Senml.{
  Cbor, integer, text, byte_string, array, map, CborItems, nil, cons, CborPairs, done, pair,
}

pub data PubkeyError : Type 0 where
  cbor_decode expected_array no_bytes_value not_in_payload : PubkeyError

pub data PubkeyResult : Type 0 where
  found : Bytes → PubkeyResult
  failed : PubkeyError → PubkeyResult

-- The variables of the loop over a record's fields: the name, and the bytes.
unfoldable pub read_field : Cbor → Cbor → Option Bytes × Option Bytes → Option Bytes × Option Bytes
read_field (integer i) (text s) (name, vd) = if i == 0 then (some s, vd) else (name, vd)
read_field (integer i) (byte_string b) (name, vd) = if i == 8 then (name, some b) else (name, vd)
read_field k v vars = vars

unfoldable pub read_fields : CborPairs → Option Bytes × Option Bytes → Option Bytes × Option Bytes
unfolding read_field
read_fields done vars = vars
read_fields (pair k v fields) vars = read_fields fields (read_field k v vars)

abbrev is_three : Option Bytes → Bool
is_three none = false
is_three (some name) = elim (list_dec ℕ_discrete name (bytes "3")) [ yes p ↦ true | no n ↦ false ]

abbrev bytes_of : Option Bytes → PubkeyResult
bytes_of none = failed no_bytes_value
bytes_of (some b) = found b

-- The first record with the name "3" decides.
unfoldable pub find_pubkey : CborItems → PubkeyResult
unfolding read_fields list_dec
find_pubkey nil = failed not_in_payload
find_pubkey (cons (map fields) records) =
    let later = find_pubkey records in
    let vars = read_fields fields (none, none) in if is_three vars.0 then bytes_of vars.1 else later
find_pubkey (cons record_ records) = find_pubkey records

-- `parse_device_pubkey`, on the value that the crate decodes.
unfoldable pub parse_device_pubkey : Option Cbor → PubkeyResult
unfolding find_pubkey
parse_device_pubkey none = failed cbor_decode
parse_device_pubkey (some (array records)) = find_pubkey records
parse_device_pubkey (some top) = failed expected_array

-- `a ^ b` on u16: the bits of one of the two, since `a + b` counts the common ones twice.
abbrev pub xor_16 : ℕ → ℕ → ℕ
xor_16 a b = bit_or a b - bit_and a b

-- One bit of the checksum, and the eight of a byte.
unfoldable pub crc_shift : ℕ → ℕ → ℕ
crc_shift zero crc = crc
crc_shift (suc bits) crc =
    crc_shift bits
      (if bit_and crc 32768 == 0 then crc * 2 % 2 ^ 16 else xor_16 (crc * 2 % 2 ^ 16) 4129)

unfoldable pub crc_bytes : ℕ → Bytes → ℕ
unfolding crc_shift
crc_bytes crc [] = crc
crc_bytes crc (byte ∷ data_) = crc_bytes (crc_shift 8 (xor_16 crc (byte * 256 % 2 ^ 16))) data_

unfoldable pub crc16_xmodem : Bytes → ℕ
unfolding crc_bytes
crc16_xmodem data_ = crc_bytes 0 data_

-- The plaintext, with 14 random bytes in front. `&network_key[..16]` panics on a shorter key.
unfoldable pub key_plaintext : Bytes → Bytes → Outcome Bytes
unfolding crc16_xmodem
key_plaintext random_prefix network_key =
    if leb 16 (length network_key)
    then ok (
        let front = random_prefix ++ take 16 network_key in
        let crc = crc16_xmodem front in front ++ ((crc / 256 % 256) ∷ (crc % 256) ∷ []))
    else panic

-- `encrypt_network_key`: the shared secret's x coordinate (none where the device's key is not
-- readable) and the encryption of a block are the crates'.
unfoldable pub encrypt_network_key :
    (Bytes → Option Bytes)
    → (Bytes → Bytes → Bytes)
    → Bytes
    → Bytes
    → Bytes
    → Outcome (Option Bytes)
unfolding key_plaintext
encrypt_network_key shared_x encrypt_block random_prefix device_pubkey network_key =
    elim (shared_x device_pubkey) [
      | none ↦ ok none
      | some x ↦ key_plaintext random_prefix network_key >>= λ plaintext.
          let aes_key = take 16 x in
          ok (
            some (
              encrypt_block aes_key (take 16 plaintext)
              ++ encrypt_block aes_key (drop 16 plaintext)))
    ]
