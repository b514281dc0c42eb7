-- ===== src/Services/Http/Receive.antt =====
-- services/common/http_client/src/http_client.c: the reception of a response: its header, and a body with a content length.
use iot_hub_device_c_sdk.Prelude.{
  ℕ, zero, suc, ◌+◌, ◌-◌, ◌%◌, ◌^◌, ◌*◌, List, [], ◌∷◌, ◌++◌, ℤ, pos, negsuc, Bool, true, false,
  not, ◌&&◌, ◌||◌, Option, none, some, is_zero, ltb, leb, ◌==◌, ◌==ℤ◌, sub_ℕ, length, drop,
  if◌then◌else◌,
}
use iot_hub_device_c_sdk.Utils.Strings.{find_text}

abbrev pub err_http : ℤ
err_http = negsuc 3

abbrev pub err_http_auth : ℤ
err_http_auth = negsuc 8

abbrev pub err_http_not_found : ℤ
err_http_not_found = negsuc 9

abbrev pub err_http_timeout : ℤ
err_http_timeout = negsuc 10

-- QCLOUD_ERR_TCP_NOTHING_TO_READ
abbrev pub err_tcp_nothing_to_read : ℤ
err_tcp_nothing_to_read = negsuc 608

abbrev pub is_positive : ℤ → Bool
is_positive (pos n) = ltb 0 n
is_positive (negsuc n) = false

abbrev pub is_below_zero : ℤ → Bool
is_below_zero (pos n) = false
is_below_zero (negsuc n) = true

-- "\r\n\r\n"
abbrev pub header_end : List ℕ
header_end = 13 ∷ 10 ∷ 13 ∷ 10 ∷ []

-- "Content-Length"
abbrev pub content_length_text : List ℕ
content_length_text =
    b'C' ∷ b'o' ∷ b'n' ∷ b't' ∷ b'e' ∷ b'n' ∷ b't' ∷ b'-' ∷ b'L' ∷ b'e' ∷ b'n' ∷ b'g' ∷ b't' ∷ b'h'
    ∷ []

-- "Transfer-Encoding: chunked"
abbrev pub chunked_text : List ℕ
chunked_text =
    b'T' ∷ b'r' ∷ b'a' ∷ b'n' ∷ b's' ∷ b'f' ∷ b'e' ∷ b'r' ∷ b'-' ∷ b'E' ∷ b'n' ∷ b'c' ∷ b'o' ∷ b'd'
    ∷ b'i' ∷ b'n' ∷ b'g' ∷ b':' ∷ b' ' ∷ b'c' ∷ b'h' ∷ b'u' ∷ b'n' ∷ b'k' ∷ b'e' ∷ b'd' ∷ []

-- IotHTTPResponseData. The buffer is what a call is given.
pub record Response : Type 0 where
  pub status_code : ℕ
  pub content_length : ℤ
  pub recv_len : ℕ
  pub need_recv_len : ℤ
  pub is_chunked : Bool

-- A read of the network is given a length, and answers with a code and bytes.
pub record NetEnv : Type 0 where
  pub read : ℕ → ℕ → ℤ × List ℕ
  pub expired : ℕ → Bool

-- QCLOUD_ERR_TCP_NOTHING_TO_READ is no error: nothing came.
abbrev pub read_result : ℤ × List ℕ → ℤ × List ℕ
read_result (rc, bytes) =
    if rc ==ℤ err_tcp_nothing_to_read
    then (pos 0, [])
    else if is_zero rc
    then (pos (length bytes), bytes)
    else (rc, [])

-- How many bytes _http_client_content_length_recv asks for.
unfoldable pub body_read_len : (need_recv_len room : ℕ) → ℕ
body_read_len need_recv_len room = if ltb room need_recv_len then room else need_recv_len

-- `buf_len - len - 1` as it is passed, in uint32_t: in a buffer of 0 bytes it is 2 ^ 32 - 1.
unfoldable pub header_room : (buf_len len : ℕ) → ℕ
header_room buf_len len = (buf_len + 2 ^ 32 - len - 1) % 2 ^ 32

module _ (env : NetEnv) where
  -- _http_client_recv, as the call of the number `step`
  unfoldable pub http_client_recv : (step len : ℕ) → ℤ × List ℕ
  http_client_recv step len = read_result (env.read step len)

  -- _http_client_content_length_recv, `offset` bytes being in the buffer: the result, the bytes that were
  -- put behind them, and the response.
  unfoldable pub content_length_recv : (step buf_len offset : ℕ) → Response → ℤ × List ℕ × Response
  unfolding http_client_recv body_read_len
  content_length_recv step buf_len offset r = elim r.need_recv_len [
    | negsuc n ↦ (pos offset, [], r)
    | pos need ↦
        let (rc, bytes) = http_client_recv step (body_read_len need (buf_len - offset)) in
        if need == 0
        then (pos offset, [], r)
        else if is_positive rc
        then (
          pos (length bytes + offset),
          bytes,
          record r {
            recv_len = r.recv_len + length bytes;
            need_recv_len = sub_ℕ need (length bytes);
          },
        )
        else (if offset == 0 then rc else pos offset, [], r)
  ]

  -- The loop of _http_client_recv_response: the code of its failure or 0, the bytes up to the end of
  -- the header and behind it, and the number of the next call; nothing if the fuel is out.
  unfoldable pub header_loop : ℕ → (step buf_len : ℕ) → List ℕ → Option (ℤ × List ℕ × ℕ)
  unfolding http_client_recv header_room
  header_loop zero step buf_len buf = none
  header_loop (suc fuel) step buf_len buf = elim (find_text header_end buf) [
    | some k ↦ some (pos 0, buf, step)
    | none ↦
        let (rc, bytes) = http_client_recv step (header_room buf_len (length buf)) in
        let more = header_loop fuel (step + 1) buf_len (buf ++ bytes) in
        if env.expired step
        then some (err_http_timeout, buf, step)
        else if is_below_zero rc
        then some (rc, buf, step)
        else more
  ]

-- The test of the status code of a response.
unfoldable pub status_rc : ℕ → ℤ
status_rc code =
    if code == 403
    then err_http_auth
    else if code == 404
    then err_http_not_found
    else if ltb code 200 || leb 400 code
    then err_http
    else pos 0

-- atoi of the C library, on digits with blanks before them, where the number fits an int.
unfoldable pub digits_value : ℕ → List ℕ → ℕ
digits_value n [] = n
digits_value n (c ∷ cs) =
    let rest = digits_value (10 * n + (c - b'0')) cs in if leb b'0' c && leb c b'9' then rest else n

unfoldable pub atoi : List ℕ → ℕ
unfolding digits_value
atoi [] = 0
atoi (c ∷ cs) = let rest = atoi cs in if c == b' ' then rest else digits_value 0 (c ∷ cs)

-- What _http_client_recv_response reads in the header: the response, with the number of bytes that came
-- behind it, or the code of its failure.
unfoldable pub parse_header : (header : List ℕ) → (body_len : ℕ) → Response → ℤ × Response
unfolding status_rc atoi
parse_header header body_len r =
    let code = atoi (drop 9 header) in
    let r1 : Response = record r { status_code = code } in
    if not (is_zero (status_rc code))
    then (status_rc code, r1)
    else elim (find_text content_length_text header) [
      | some k ↦
          let content_length = atoi (drop (k + 16) header) in
          (
            pos 0,
            record r1 {
              is_chunked = false;
              content_length = pos content_length;
              recv_len = body_len;
              need_recv_len = sub_ℕ content_length body_len;
            },
          )
      | none ↦ elim (find_text chunked_text header) [
        | some k ↦
            (pos 0, record r1 { is_chunked = true; recv_len = body_len; need_recv_len = pos 1 })
        | none ↦ (err_http, record r1 { content_length = negsuc 0 })
      ]
    ]

-- What a reception comes to: a result with the bytes in the buffer and the response, or a body in chunks,
-- whose reception is not modelled.
pub data Received : Type 0 where
  answered : ℤ → List ℕ → Response → Received
  in_chunks : List ℕ → Response → Received

module _ (env : NetEnv) where
  -- _http_client_recv_content, with the bytes that are in the buffer
  unfoldable pub recv_content : (step buf_len : ℕ) → List ℕ → Response → Received
  unfolding content_length_recv
  recv_content step buf_len buf r =
      let (rc, bytes, r') = content_length_recv env step buf_len (length buf) r in
      if r.is_chunked then in_chunks buf r else answered rc (buf ++ bytes) r'

  -- _http_client_recv_response behind the header, which ends at `end`
  unfoldable pub recv_behind_header :
      (step buf_len : ℕ) → (buf : List ℕ) → (end : ℕ) → Response → Received
  unfolding parse_header recv_content
  recv_behind_header step buf_len buf end r =
      let body = drop (end + 4) buf in
      let (rc, r') = parse_header buf (length body) r in
      if is_zero rc then recv_content step buf_len body r' else answered rc buf r'

  -- _http_client_recv_response; nothing if the fuel of the loop is out.
  unfoldable pub recv_response : (fuel step buf_len : ℕ) → Response → Option Received
  unfolding header_loop recv_behind_header
  recv_response fuel step buf_len r = elim (header_loop env fuel step buf_len []) [
    | none ↦ none
    | some (rc, buf, step') ↦ elim (find_text header_end buf) [
      | none ↦ some (answered rc buf r)
      | some end ↦
          some
            (if is_zero rc then recv_behind_header step' buf_len buf end r else answered rc buf r)
    ]
  ]

  -- IOT_HTTP_Recv, for a client that is there
  unfoldable pub http_recv : (fuel step buf_len : ℕ) → Response → Option Received
  unfolding recv_response recv_content
  http_recv fuel step buf_len r =
      if is_zero r.need_recv_len
      then recv_response fuel step buf_len r
      else some (recv_content step buf_len [] r)

-- IOT_HTTP_IsRecvFinished
unfoldable pub http_is_recv_finished : Response → Bool
http_is_recv_finished r = is_zero r.need_recv_len
