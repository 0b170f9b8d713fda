-- ===== src/Status.antt =====
-- The status codes of src/enums/status.rs.
pub mod Laws
mod Examples
use minihttp.Base.{ℕ, ◌+◌, Bool, true, false, ◌&&◌, ◌||◌, Option, none, some, List, [], ◌∷◌}
use minihttp.Base.{Bytes, leb, ◌==◌, if◌then◌else◌}
use minihttp.Base.Ascii.{codes}

pub data Status : Type 0 where
  continue switching_protocol ok created accepted non_authoritative_information no_content
        reset_content partial_content multiple_choices moved_permanently found see_other
        not_modified use_proxy temporary_redirect permanent_redirect bad_request unauthorized
        payment_required forbidden not_found method_not_allowed not_acceptable
        proxy_authentication_required request_timeout conflict gone length_required
        precondition_failed request_entity_too_large request_uri_too_long unsupported_media_type
        request_range_not_satisfiable expectation_failed upgrade_required too_many_requests
        internal_server_error not_implemented bad_gateway service_unavailable gateway_timeout
        version_not_supported :
      Status

abbrev pub code : Status → ℕ
code continue = 100
code switching_protocol = 101
code ok = 200
code created = 201
code accepted = 202
code non_authoritative_information = 203
code no_content = 204
code reset_content = 205
code partial_content = 206
code multiple_choices = 300
code moved_permanently = 301
code found = 302
code see_other = 303
code not_modified = 304
code use_proxy = 305
code temporary_redirect = 307
code permanent_redirect = 308
code bad_request = 400
code unauthorized = 401
code payment_required = 402
code forbidden = 403
code not_found = 404
code method_not_allowed = 405
code not_acceptable = 406
code proxy_authentication_required = 407
code request_timeout = 408
code conflict = 409
code gone = 410
code length_required = 411
code precondition_failed = 412
code request_entity_too_large = 413
code request_uri_too_long = 414
code unsupported_media_type = 415
code request_range_not_satisfiable = 416
code expectation_failed = 417
code upgrade_required = 426
code too_many_requests = 429
code internal_server_error = 500
code not_implemented = 501
code bad_gateway = 502
code service_unavailable = 503
code gateway_timeout = 504
code version_not_supported = 505

-- The arms of a `match` on a number, in the order of the source; `none` is the arm `_`.
abbrev pub select {ℓ} : {A : Type ℓ} → ℕ → List (ℕ × A) → Option A
select c [] = none
select c ((k, a) ∷ arms) = if c == k then some a else select c arms

-- The arms of `Status::reason`.
abbrev reason_arms : List (ℕ × Bytes)
reason_arms =
    (100, codes "Continue")
    ∷ (101, codes "Switching Protocol")
    ∷ (200, codes "OK")
    ∷ (201, codes "Created")
    ∷ (202, codes "Accepted")
    ∷ (203, codes "Non-Authoriative Information")
    ∷ (204, codes "No Content")
    ∷ (205, codes "Reset Content")
    ∷ (206, codes "Partial Content")
    ∷ (300, codes "Multiple Choice")
    ∷ (301, codes "Moved Permanently")
    ∷ (302, codes "Found")
    ∷ (303, codes "See Other")
    ∷ (304, codes "Not Modified")
    ∷ (305, codes "Use Proxy")
    ∷ (307, codes "Temporary Redirect")
    ∷ (308, codes "Permanent Redirect")
    ∷ (400, codes "Bad Request")
    ∷ (401, codes "Unauthorized")
    ∷ (402, codes "Payment Required")
    ∷ (403, codes "Forbidden")
    ∷ (404, codes "Not Found")
    ∷ (405, codes "Method Not Allowed")
    ∷ (406, codes "Not Acceptable")
    ∷ (407, codes "Proxy Authentication Required")
    ∷ (408, codes "Request Timeout")
    ∷ (409, codes "Conflict")
    ∷ (410, codes "Gone")
    ∷ (411, codes "Length Required")
    ∷ (412, codes "Precondition Failed")
    ∷ (413, codes "Request Entity Too Large")
    ∷ (414, codes "Request-URI Too Long")
    ∷ (415, codes "Unsupported Media Type")
    ∷ (416, codes "Request Range Not Satisfiable")
    ∷ (417, codes "Expectation Failed")
    ∷ (426, codes "Upgrade Required")
    ∷ (429, codes "Too Many Requests")
    ∷ (500, codes "Internal Server Error")
    ∷ (501, codes "Not Implemented")
    ∷ (502, codes "Bad Gateway")
    ∷ (503, codes "Service Unavailable")
    ∷ (504, codes "Gateway Timeout")
    ∷ (505, codes "HTTP Version Not Supported")
    ∷ []

abbrev or_unknown : Option Bytes → Bytes
or_unknown none = codes "Unknown"
or_unknown (some r) = r

unfoldable pub reason : Status → Bytes
reason s = or_unknown (select (code s) reason_arms)

-- `100...199 | 204 | 304 => false`
unfoldable pub response_has_body : Status → Bool
response_has_body s =
    if (leb 100 (code s) && leb (code s) 199) || code s == 204 || code s == 304 then false else true

-- The arms of `Status::from`.
abbrev from_arms : List (ℕ × Status)
from_arms =
    (100, continue)
    ∷ (101, switching_protocol)
    ∷ (200, ok)
    ∷ (201, created)
    ∷ (202, accepted)
    ∷ (203, non_authoritative_information)
    ∷ (204, no_content)
    ∷ (205, reset_content)
    ∷ (206, partial_content)
    ∷ (300, multiple_choices)
    ∷ (301, moved_permanently)
    ∷ (302, found)
    ∷ (303, see_other)
    ∷ (304, not_modified)
    ∷ (305, use_proxy)
    ∷ (307, temporary_redirect)
    ∷ (308, permanent_redirect)
    ∷ (400, bad_request)
    ∷ (401, unauthorized)
    ∷ (402, payment_required)
    ∷ (403, forbidden)
    ∷ (404, not_found)
    ∷ (405, method_not_allowed)
    ∷ (406, not_acceptable)
    ∷ (407, proxy_authentication_required)
    ∷ (408, request_timeout)
    ∷ (409, conflict)
    ∷ (410, gone)
    ∷ (411, length_required)
    ∷ (412, precondition_failed)
    ∷ (413, request_entity_too_large)
    ∷ (414, request_uri_too_long)
    ∷ (415, unsupported_media_type)
    ∷ (416, request_range_not_satisfiable)
    ∷ (417, expectation_failed)
    ∷ (426, upgrade_required)
    ∷ (429, too_many_requests)
    ∷ (500, internal_server_error)
    ∷ (501, not_implemented)
    ∷ (502, bad_gateway)
    ∷ (503, service_unavailable)
    ∷ (504, gateway_timeout)
    ∷ (505, version_not_supported)
    ∷ []

unfoldable pub from : ℕ → Option Status
from c = select c from_arms
