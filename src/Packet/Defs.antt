-- ===== src/Packet/Defs.antt =====
-- common/mqtt_packet/inc/mqtt_packet.h: constants, error codes, header bytes and option structures.
use iot_hub_device_c_sdk.Prelude.{
  ℕ, ◌+◌, ◌*◌, ◌/◌, ◌%◌, Option, List, if◌then◌else◌, ltb, ◌≡◌, refl, ◌⊎◌, inl, inr,
}

abbrev pub max_no_of_remaining_length_bytes : ℕ
max_no_of_remaining_length_bytes = 4

abbrev pub max_mqtt_fixed_header_len : ℕ
max_mqtt_fixed_header_len = 1 + max_no_of_remaining_length_bytes

abbrev pub min_mqtt_fixed_header_len : ℕ
min_mqtt_fixed_header_len = 1 + 1

-- MQTTPacketErrCode, without MQTT_RET_PACKET_OK.
pub data PacketError : Type 0 where
  invalid_packet_type short_buffer version_unsupported sub_count_exceed : PacketError

-- Undefined behaviour of C that the code can run into: an access beyond the memory that it is given, a
-- write through a null pointer, and a read of a variable that was not set.
pub data Fault : Type 0 where
  out_of_bounds null_pointer uninitialized : Fault

-- What a packet function returns: no defined result, an error code below 0, or a value.
pub data Result {ℓ} (T : Type ℓ) : Type ℓ where
  fault : Fault → Result T
  err : PacketError → Result T
  ok : T → Result T

infixl 5 ◌>>=◌ ◌>>◌
abbrev pub ◌>>=◌ {ℓ κ} : {S : Type ℓ} {T : Type κ} → Result S → (S → Result T) → Result T
fault u >>= next = fault u
err code >>= next = err code
ok value >>= next = next value

abbrev pub ◌>>◌ {ℓ} : {T : Type ℓ} → Result (Unit {0}) → Result T → Result T
first >> next = first >>= (λ done. next)

-- A sequence that succeeds has a first part that succeeds.
pub bind-eq-ok {ℓ κ} :
    {S : Type ℓ} {T : Type κ} (first : Result S) (next : S → Result T) {t : T}
    → (first >>= next) ≡ ok t
    → (s : S) × (first ≡ ok s) × (next s ≡ ok t)
bind-eq-ok (fault u) next done = cc
bind-eq-ok (err code) next done = cc
bind-eq-ok (ok s) next done = (s, refl, done)

pub Result-cases {ℓ} :
    {A : Type ℓ} (r : Result A)
    → ((a : A) × (r ≡ ok a)) ⊎ ((e : PacketError) × (r ≡ err e)) ⊎ ((u : Fault) × (r ≡ fault u))
Result-cases (ok a) = inl (a, refl)
Result-cases (err e) = inr (inl (e, refl))
Result-cases (fault u) = inr (inr (u, refl))

-- SHORT_BUFFER_CHECK
abbrev pub short_buffer_check : ℕ → ℕ → Result (Unit {0})
short_buffer_check buf_len len = if ltb buf_len len then err short_buffer else ok tt

-- MQTTPacketType: the values that `switch` statements name, with their numbers.
pub data PacketType : Type 0 where
  connect connack publish puback pubrec pubrel pubcomp : PacketType
  subscribe suback unsubscribe unsuback pingreq pingresp disconnect : PacketType

abbrev pub type_number : PacketType → ℕ
type_number connect = 1
type_number connack = 2
type_number publish = 3
type_number puback = 4
type_number pubrec = 5
type_number pubrel = 6
type_number pubcomp = 7
type_number subscribe = 8
type_number suback = 9
type_number unsubscribe = 10
type_number unsuback = 11
type_number pingreq = 12
type_number pingresp = 13
type_number disconnect = 14

-- MQTTPublishFlags
pub record PublishFlags : Type 0 where
  pub dup : ℕ
  pub qos : ℕ
  pub retain : ℕ

-- MQTTHeader: bit fields of one byte, the lowest first. A store into a field keeps its low bits.
pub record Header : Type 0 where
  pub retain : ℕ
  pub qos : ℕ
  pub dup : ℕ
  pub kind : ℕ

abbrev pub header_byte : Header → ℕ
header_byte h = h.retain % 2 + h.qos % 4 * 2 + h.dup % 2 * 8 + h.kind % 16 * 16

abbrev pub byte_header : ℕ → Header
byte_header b = record { retain = b % 2; qos = b / 2 % 4; dup = b / 8 % 2; kind = b / 16 % 16 }

-- MQTTPacketWillOptions
pub record WillOptions : Type 0 where
  pub topic_name : List ℕ
  pub message : List ℕ
  pub retained : ℕ
  pub qos : ℕ

-- MQTTPacketConnectOption. A string is the list of its bytes, without the final NUL.
pub record ConnectOption : Type 0 where
  pub mqtt_version : ℕ
  pub client_id : List ℕ
  pub keep_alive_interval : ℕ
  pub clean_session : ℕ
  pub will_flag : ℕ
  pub will : WillOptions
  pub username : Option (List ℕ)
  pub password : Option (List ℕ)

-- MQTTConnectFlags: bit fields of one byte, the lowest (unused) bit first.
pub record ConnectFlags : Type 0 where
  pub clean_session : ℕ
  pub will : ℕ
  pub will_qos : ℕ
  pub will_retain : ℕ
  pub password : ℕ
  pub username : ℕ

abbrev pub connect_flags_byte : ConnectFlags → ℕ
connect_flags_byte f =
    f.clean_session % 2 * 2
    + f.will % 2 * 4
    + f.will_qos % 4 * 8
    + f.will_retain % 2 * 32
    + f.password % 2 * 64
    + f.username % 2 * 128
