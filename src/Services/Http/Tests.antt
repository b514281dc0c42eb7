-- ===== src/Services/Http/Tests.antt =====
-- Requests of services/common/http_client and of services/common/cos at concrete inputs: what the
-- theorems about them say there.
use iot_hub_device_c_sdk.Prelude.{
  ℕ, ◌+◌, ◌≤◌, ◌≡◌, refl, List, [], ◌∷◌, pos, negsuc, false, some, length, take, length-take_le,
  arith,
}
use iot_hub_device_c_sdk.Services.Cos.{HttpEnv, CosParams, cos_download_init, cos_download_fetches}
use iot_hub_device_c_sdk.Services.Cos.Requests.{resumed_sends_nothing}
use iot_hub_device_c_sdk.Services.Http.{HttpData, parse_url, printed}
use iot_hub_device_c_sdk.Services.Http.Receive.{Response, NetEnv, content_length_recv, status_rc}
use iot_hub_device_c_sdk.Services.Http.Url.{url_of, parse_url_fragment}
use iot_hub_device_c_sdk.Services.Http.Body.{Reads, content_length_recv_lem}

-- A client of HTTP that sends and brings 10 bytes each time.
abbrev tens : HttpEnv
tens = record { request = λ n. pos 0; recv = λ n buf_len. pos 10; is_recv_finished = λ n. false }

abbrev from_five : CosParams
from_five = record { offset = 5; file_size = 100; is_fragmentation = false }

resumed_sends_nothing_example :
    (cos_download_fetches tens 7 1024 (cos_download_init from_five)).requests ≡ []
resumed_sends_nothing_example = resumed_sends_nothing tens 1024 7 from_five (omega arith) refl

-- "http", "h.io" and "/a", with a fragment.
abbrev http_text : List ℕ
http_text = b'h' ∷ b't' ∷ b't' ∷ b'p' ∷ []

abbrev host_text : List ℕ
host_text = b'h' ∷ b'.' ∷ b'i' ∷ b'o' ∷ []

parse_url_fragment_example :
    (h : HttpData) × (p : HttpData) × (parse_url
        (url_of http_text host_text (b'a' ∷ b'#' ∷ b'x' ∷ []))
      ≡ some (h, p))
    × (printed h ≡ host_text)
    × (printed p ≡ b'/' ∷ b'a' ∷ [])
parse_url_fragment_example =
    parse_url_fragment http_text host_text (b'a' ∷ []) (ground arith) (ground arith) (ground arith)
      (ground arith) (b'x' ∷ [])

-- A body of 30 bytes, of which 10 came, and a network that brings what is asked for.
abbrev twenty_left : Response
twenty_left = record {
  status_code = 200;
  content_length = pos 30;
  recv_len = 10;
  need_recv_len = pos 20;
  is_chunked = false;
}

abbrev one_byte : NetEnv
one_byte = record { read = λ step len. (pos 0, take len (7 ∷ [])); expired = λ step. false }

one_byte-Reads : Reads one_byte
one_byte-Reads = record { within = λ step len. length-take_le len (7 ∷ []) }

content_length_recv_lem_at :
    (left : ℕ) × ((content_length_recv one_byte 0 16 0 twenty_left).2.need_recv_len ≡ pos left)
    × (length (content_length_recv one_byte 0 16 0 twenty_left).1 + left ≡ 20)
    × (0 + length (content_length_recv one_byte 0 16 0 twenty_left).1 ≤ 16)
    × ((content_length_recv one_byte 0 16 0 twenty_left).2.recv_len
        ≡ 10 + length (content_length_recv one_byte 0 16 0 twenty_left).1)
content_length_recv_lem_at =
    content_length_recv_lem one_byte one_byte-Reads 0 16 0 20 twenty_left refl (omega arith)

not_found_refused : status_rc 404 ≡ negsuc 9
unfolding status_rc
not_found_refused = refl

-- A server that sends a header with the status 404.
abbrev not_found_page : NetEnv
not_found_page = record {
  read = λ step len. (
    pos 0,
    take len (
        b'H' ∷ b'T' ∷ b'T' ∷ b'P' ∷ b'/' ∷ b'1' ∷ b'.' ∷ b'1' ∷ b' ' ∷ b'4' ∷ b'0' ∷ b'4' ∷ 13 ∷ 10
        ∷ 13 ∷ 10 ∷ []),
  );
  expired = λ step. false;
}

abbrev fresh_response : Response
fresh_response = record {
  status_code = 0;
  content_length = pos 0;
  recv_len = 0;
  need_recv_len = pos 0;
  is_chunked = false;
}
