-- ===== src/Services/Http.antt =====
-- services/common/http_client/src/http_client.c: the URL and the request that is sent, and the reception
-- of a body with a content length. The network is its answers, by the number of the call.
pub mod Url
pub mod Body
pub mod Whole
pub mod Tests
pub mod Receive
use iot_hub_device_c_sdk.Prelude.{
  ℕ, zero, suc, ◌+◌, ◌-◌, ◌*◌, List, [], ◌∷◌, ◌++◌, ℤ, pos, negsuc, Bool, true, false, not, ◌&&◌,
  ◌||◌, Option, none, some, is_zero, ltb, leb, ◌==◌, ◌==ℤ◌, sub_ℕ, eq_bytes, length, take, drop,
  if◌then◌else◌,
}
use iot_hub_device_c_sdk.Utils.Strings.{find_byte, find_text}

abbrev pub err_http_parse : ℤ
err_http_parse = negsuc 6

-- HTTPData: a string that goes on to its NUL, and the length that counts of it.
pub record HttpData : Type 0 where
  pub text : List ℕ
  pub data_len : ℤ

abbrev pub scheme_end : List ℕ
scheme_end = b':' ∷ b'/' ∷ b'/' ∷ []

-- The length of the path: up to the first # behind the scheme, wherever that stands.
unfoldable pub path_len : (host_len : ℕ) → (from_scheme : List ℕ) → (path : List ℕ) → ℤ
path_len host_len from_scheme path = elim (find_byte b'#' from_scheme) [
  | none ↦ pos (length path)
  | some k ↦ sub_ℕ k (3 + host_len)
]

-- _http_client_parse_url: the host and the path, or none for QCLOUD_ERR_HTTP_PARSE.
unfoldable pub parse_url : List ℕ → Option (HttpData × HttpData)
unfolding path_len
parse_url url = elim (find_text scheme_end url) [
  | none ↦ none
  | some i ↦
      let host = drop (i + 3) url in
      elim (find_byte b'/' host) [
        | none ↦ some (
          record { text = host; data_len = pos (length host) },
          record { text = b'/' ∷ []; data_len = pos 1 },
        )
        | some j ↦ some (
          record { text = host; data_len = pos j },
          record { text = drop j host; data_len = path_len j (drop i url) (drop j host) },
        )
      ]
]

-- What "%.*s" prints: a negative precision is none.
unfoldable pub printed : HttpData → List ℕ
printed d = elim d.data_len [ pos n ↦ take n d.text | negsuc n ↦ d.text ]

pub data Method : Type 0 where
  get post put delete head : Method

-- method_str
abbrev pub method_text : Method → List ℕ
method_text get = b'G' ∷ b'E' ∷ b'T' ∷ []
method_text post = b'P' ∷ b'O' ∷ b'S' ∷ b'T' ∷ []
method_text put = b'P' ∷ b'U' ∷ b'T' ∷ []
method_text delete = b'D' ∷ b'E' ∷ b'L' ∷ b'E' ∷ b'T' ∷ b'E' ∷ []
method_text head = b'H' ∷ b'E' ∷ b'A' ∷ b'D' ∷ []

abbrev pub crlf : List ℕ
crlf = 13 ∷ 10 ∷ []

abbrev pub version_and_host : List ℕ
version_and_host =
    b' ' ∷ b'H' ∷ b'T' ∷ b'T' ∷ b'P' ∷ b'/' ∷ b'1' ∷ b'.' ∷ b'1' ∷ 13 ∷ 10 ∷ b'H' ∷ b'o' ∷ b's'
    ∷ b't' ∷ b':' ∷ []

-- The text of the request line and the host.
unfoldable pub request_line : Method → (host path : HttpData) → List ℕ
unfolding printed
request_line method host path =
    method_text method ++ (b' ' ∷ (printed path ++ (version_and_host ++ (printed host ++ crlf))))

-- IotHTTPRequestParams. The lengths of the content are formatted by the C library.
pub record RequestParams : Type 0 where
  pub url : List ℕ
  pub method : Method
  pub header : Option (List ℕ)
  pub content_type : Option (List ℕ)
  pub content : Option (List ℕ)
  pub content_length_line : List ℕ

-- The texts that _http_client_send_request hands to the network, in order, for a URL that is parsed.
unfoldable pub request_content : RequestParams → List (List ℕ)
request_content p = elim p.content [
  | none ↦ crlf ∷ []
  | some [] ↦ crlf ∷ []
  | some (b ∷ bs) ↦
      p.content_length_line
      ∷ (elim p.content_type [ none ↦ [] | some t ↦ t ∷ [] ] ++ (crlf ∷ (b ∷ bs) ∷ []))
]

unfoldable pub request_texts : RequestParams → HttpData → HttpData → List (List ℕ)
unfolding request_line request_content
request_texts p host path =
    request_line p.method host path
    ∷ (elim p.header [ none ↦ [] | some h ↦ h ∷ [] ] ++ request_content p)
