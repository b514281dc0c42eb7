-- ===== src/Services/Http/Url.antt =====
-- services/common/http_client/src/http_client.c: the parts of a URL.
use iot_hub_device_c_sdk.Prelude.{
  ℕ, suc, ◌+◌, ◌≡◌, refl, List, [], ◌∷◌, ◌++◌, pos, false, some, ◌==◌, length, drop, length-append,
  take-append, drop-append, append_assoc, arith, All-append, ap, ◌∙◌,
}
use iot_hub_device_c_sdk.Services.Http.{HttpData, scheme_end, path_len, parse_url, printed}
use iot_hub_device_c_sdk.Utils.Strings.{
  Lacks, take_all, find_byte, find_text, find_byte-append, find_byte-none, find_text-append,
}

-- A URL: a scheme, a host, and a path that begins with a slash.
abbrev pub url_of : (scheme host path : List ℕ) → List ℕ
url_of scheme host path = scheme ++ (b':' ∷ (b'/' ∷ b'/' ∷ [] ++ (host ++ (b'/' ∷ path))))

suc-add : (n : ℕ) → suc n + 3 ≡ suc (n + 3)
suc-add n = omega arith

drop_scheme :
    (scheme rest : List ℕ) → drop (length scheme + 3) (scheme ++ (scheme_end ++ rest)) ≡ rest
drop_scheme [] rest = refl
drop_scheme (c ∷ scheme) rest =
    ap (λ (n : ℕ). drop n (c ∷ (scheme ++ (scheme_end ++ rest)))) (suc-add (length scheme))
    ∙ drop_scheme scheme rest

-- Everything from the scheme's end to the end of the path lacks a #.
front-Lacks :
    (host path : List ℕ)
    → Lacks b'#' host
    → Lacks b'#' path
    → Lacks b'#' (scheme_end ++ (host ++ (b'/' ∷ path)))
front-Lacks host path h p =
    (refl, (refl, (refl, All-append (λ c. (c == b'#') ≡ false) host (b'/' ∷ path) h (refl, p))))

found :
    (scheme host tail : List ℕ)
    → Lacks b':' scheme
    → find_text scheme_end (scheme ++ (scheme_end ++ (host ++ tail))) ≡ some (length scheme)
found scheme host tail ok = find_text-append b':' (b'/' ∷ b'/' ∷ []) scheme (host ++ tail) ok

module _ (scheme host path : List ℕ) (scheme_ok : Lacks b':' scheme) (host_ok : Lacks b'/' host)
    (host_whole : Lacks b'#' host) (path_whole : Lacks b'#' path) where
  -- The path ends where the fragment begins.
  path_len_lem :
      (fragment : List ℕ)
      → path_len
          (length host)
          (scheme_end ++ (host ++ (b'/' ∷ (path ++ (b'#' ∷ fragment)))))
          (b'/' ∷ (path ++ (b'#' ∷ fragment)))
        ≡ pos (suc (length path))
  unfolding path_len
  path_len_lem fragment =
      let front : List ℕ = scheme_end ++ (host ++ (b'/' ∷ path)) in
      let at : find_byte b'#' (front ++ (b'#' ∷ fragment)) ≡ some (length front) =
        find_byte-append b'#' front fragment (front-Lacks host path host_whole path_whole) in
      let whole : front ++ (b'#' ∷ fragment)
          ≡ scheme_end ++ (host ++ (b'/' ∷ (path ++ (b'#' ∷ fragment)))) =
        ap (λ (t : List ℕ). scheme_end ++ t) (append_assoc host (b'/' ∷ path) (b'#' ∷ fragment)) in
      rw (← whole, path_len, at) (ground (arith, length-append host (b'/' ∷ path)))

  -- A URL of the form scheme://host/path#fragment, whose scheme has no colon, whose host has no
  -- slash and whose host and path have no #, is taken apart into its host and its path; the
  -- fragment is no part of the request.
  pub parse_url_fragment :
      (fragment : List ℕ)
      → (h : HttpData) × (p : HttpData) × (parse_url
            (url_of scheme host (path ++ (b'#' ∷ fragment)))
          ≡ some (h, p))
        × (printed h ≡ host)
        × (printed p ≡ b'/' ∷ path)
  unfolding parse_url printed
  parse_url_fragment fragment =
      let tail : List ℕ = b'/' ∷ (path ++ (b'#' ∷ fragment)) in
      (
        record { text = host ++ tail; data_len = pos (length host) },
        record { text = tail; data_len = pos (suc (length path)) },
        rw
            (
              parse_url,
              found scheme host tail scheme_ok,
              drop_scheme scheme (host ++ tail),
              find_byte-append b'/' host (path ++ (b'#' ∷ fragment)) host_ok,
              drop_scheme scheme (host ++ tail),
              drop-append scheme (scheme_end ++ (host ++ tail)),
              drop-append host tail,
              path_len_lem fragment,
            )
            refl,
        take-append host tail,
        take-append (b'/' ∷ path) (b'#' ∷ fragment),
      )

  -- A URL of that kind without a fragment is taken apart into its host and its path.
  pub parse_url_whole :
      (h : HttpData) × (p : HttpData) × (parse_url (url_of scheme host path) ≡ some (h, p))
      × (printed h ≡ host)
      × (printed p ≡ b'/' ∷ path)
  unfolding parse_url printed path_len
  parse_url_whole =
      let tail : List ℕ = b'/' ∷ path in
      (
        record { text = host ++ tail; data_len = pos (length host) },
        record { text = tail; data_len = pos (length tail) },
        rw
            (
              parse_url,
              found scheme host tail scheme_ok,
              drop_scheme scheme (host ++ tail),
              find_byte-append b'/' host path host_ok,
              drop_scheme scheme (host ++ tail),
              drop-append scheme (scheme_end ++ (host ++ tail)),
              drop-append host tail,
              path_len,
              find_byte-none b'#' (scheme_end ++ (host ++ tail))
                  (front-Lacks host path host_whole path_whole),
              drop_scheme scheme (host ++ tail),
              drop-append host tail,
            )
            refl,
        take-append host tail,
        take_all tail,
      )
