-- ===== src/Api/Middleware.antt =====
-- internal/api/middleware.go: who gets past the Authorization header, and GetWiFiStatus of
-- handler.go, the one route behind it. The rate limiter and the logger pass every request on.
pub mod Header
pub mod Outcome
use Prim.Native.Char.{code}
use air_fi.Base.{
  ℕ, ◌+◌, ◌≡◌, refl, sym, subst, ◌↔◌, inl, inr, eq_iff, Bool-cases, Option-cases, Result-cases,
  String, Bool, true, false, ◌&&◌, Option, none, some, [], ◌∷◌, if◌then◌else◌, ◌==◌, leb, str_eq,
  Result, ok, err, arith,
}
use air_fi.Base.Bytes.{Bytes, codes}
use air_fi.Base.Int.{ℤ}
use air_fi.Session.Defs.{Session, remaining_time_formatted}
use air_fi.Session.Manager.{validate}
use air_fi.Session.Manager.Access.{Admits, validate_iff_Admits}
use air_fi.Api.{Handler, wifi_status, Response, ok_json, unauthorized}

-- `strings.SplitN(header, " ", 2)`, where it has two parts.
unfoldable pub split_space : String → Option (String × String)
split_space String.[] = none
split_space (String.◌∷◌ c rest) =
    let later = split_space rest in
    if code c == b' '
    then some (String.[], rest)
    else elim later [ none ↦ none | some (word, tail) ↦ some (String.◌∷◌ c word, tail) ]

-- `strings.ToLower`, as far as the test for "bearer" sees it: no letter outside ASCII has one of its
-- letters as its lower case.
abbrev pub to_lower : Bytes → Bytes
to_lower [] = []
to_lower (c ∷ cs) = (if leb b'A' c && leb c b'Z' then c + 32 else c) ∷ to_lower cs

abbrev pub same_codes : Bytes → Bytes → Bool
same_codes [] [] = true
same_codes (x ∷ xs) (y ∷ ys) = if x == y then same_codes xs ys else false
same_codes _ _ = false

abbrev pub is_bearer : String → Bool
is_bearer word = same_codes (to_lower (codes word)) (codes "bearer")

-- The token of "Bearer <token>".
unfoldable pub bearer_token : String → Option String
unfolding split_space
bearer_token header = elim (split_space header) [
  | none ↦ none
  | some (word, token) ↦ if is_bearer word then some token else none
]

-- A header that is missing reads as "".
unfoldable pub auth_middleware : Handler → String → ℤ → Result Response Session
unfolding bearer_token
auth_middleware h header now =
    if str_eq header ""
    then err (unauthorized "missing authorization header")
    else elim (bearer_token header) [
      | none ↦ err (unauthorized "invalid authorization header format")
      | some token ↦ elim (validate h.session_manager token now) [
        | err e ↦ err (unauthorized "invalid or expired token")
        | ok s ↦ ok s
      ]
    ]

-- The session that the next handler finds, if any.
unfoldable optional_auth_middleware : Handler → String → ℤ → Option Session
unfolding auth_middleware
optional_auth_middleware h header now = elim (auth_middleware h header now) [
  | err r ↦ none
  | ok s ↦ some s
]

unfoldable pub get_wifi_status : Option Session → ℤ → Response
get_wifi_status none now = unauthorized "unauthorized"
get_wifi_status (some s) now = ok_json (wifi_status s.id (remaining_time_formatted now now s))

-- GET /wifi/status, behind the middleware.
unfoldable pub wifi_route : Handler → String → ℤ → Response
unfolding auth_middleware get_wifi_status
wifi_route h header now = elim (auth_middleware h header now) [
  | err r ↦ r
  | ok s ↦ get_wifi_status (some s) now
]
