-- ===== src/Packet/Wire.antt =====
-- The writers append: what each adds, whatever was written before; and what the readers make of it.
use iot_hub_device_c_sdk.Prelude.{
  ℕ, ◌+◌, ◌/◌, ◌%◌, ◌^◌, ◌≤◌, ◌<◌, ◌≡◌, sym, ap, ◌∙◌, List, [], ◌∷◌, ◌++◌, arith, length,
  length-append, append_assoc, le→ltb, take-append, drop-append,
}
use iot_hub_device_c_sdk.Packet.Defs.{ok, PacketType, PublishFlags}
use iot_hub_device_c_sdk.Packet.Write.{write_int, write_string, remaining_length_serialize}
use iot_hub_device_c_sdk.Packet.Read.{read_int, read_string, packet_type_check}
use iot_hub_device_c_sdk.Packet.Deserialize.{fixed_header}
use iot_hub_device_c_sdk.Packet.RemainingLength.{serialize-groups, deserialize-serialize}

abbrev pub int_bytes : ℕ → List ℕ
int_bytes n = n / 256 % 256 ∷ n % 256 ∷ []

abbrev pub string_bytes : List ℕ → List ℕ
string_bytes s = length s / 256 % 256 ∷ length s % 256 ∷ s

pub write_int-append : (n : ℕ) (out : List ℕ) → write_int n out ≡ out ++ int_bytes n
unfolding write_int
write_int-append n out =
    rw (append_assoc out _ _) (ap (λ x. out ++ (n / 256 % 256 ∷ x ∷ [])) (omega arith))

pub write_string-append : (s out : List ℕ) → write_string s out ≡ out ++ string_bytes s
unfolding write_string
write_string-append s out = rw (write_int-append (length s) out, append_assoc)

pub remaining_length_serialize-append :
    (v : ℕ) (out : List ℕ)
    → remaining_length_serialize v out ≡ out ++ remaining_length_serialize v []
remaining_length_serialize-append v out =
    serialize-groups v out ∙ ap (λ g. out ++ g) (sym (serialize-groups v []))

pub read_int_lem :
    (n : ℕ) (rest : List ℕ) → n < 2 ^ 16 → read_int (int_bytes n ++ rest) ≡ ok (n, rest)
unfolding read_int
read_int_lem n rest h = ap (λ x. ok (x, rest)) (omega arith)

pub read_string_lem :
    (s rest : List ℕ) → length s < 2 ^ 16 → read_string (string_bytes s ++ rest) ≡ ok (s, rest)
unfolding read_string
read_string_lem s rest h =
    rw (read_int_lem (length s) (s ++ rest) h, le→ltb _ _ fits, take-append, drop-append)
  where
    fits : length s ≤ length (s ++ rest)
    fits = omega (arith, length-append s rest)

-- A packet with the right header byte and a remaining length as it is encoded passes the checks.
pub fixed_header_lem :
    (packet_type : PacketType) (buf_len b v : ℕ) (flags : PublishFlags) (rest : List ℕ)
    → ((ptr : List ℕ) → packet_type_check packet_type (b ∷ ptr) ≡ ok (flags, ptr))
    → v < 2 ^ 28
    → 1 + length (remaining_length_serialize v []) + v ≤ buf_len
    → 2 ≤ buf_len
    → fixed_header packet_type buf_len (b ∷ (remaining_length_serialize v [] ++ rest))
      ≡ ok (flags, v, rest)
fixed_header_lem packet_type buf_len b v flags rest hc hv hb two =
    rw (le→ltb buf_len 2 two, hc _, deserialize-serialize buf_len v rest hv hb)
