-- ===== src/Http/Tables.antt =====
-- The X-macro tables of anet/extra/http_parser.h, which anet/http/packet.h, packet.cc and parser.cc
-- expand into their enums and `switch`es: a number, the name (`#name`) and the text (`#string`).
use tv_cast.Prelude.{List, [], ◌∷◌, if◌then◌else◌, Bytes, codes, String, ℤ, pos, eq_int}

abbrev pub Row : Type 0
Row = ℤ × String × String

-- `HTTP_STATUS_MAP`
unfoldable pub status_map : List Row
status_map =
    (pos 100, "CONTINUE", "Continue")
    ∷ (pos 101, "SWITCHING_PROTOCOLS", "Switching Protocols")
    ∷ (pos 102, "PROCESSING", "Processing")
    ∷ (pos 200, "OK", "OK")
    ∷ (pos 201, "CREATED", "Created")
    ∷ (pos 202, "ACCEPTED", "Accepted")
    ∷ (pos 203, "NON_AUTHORITATIVE_INFORMATION", "Non-Authoritative Information")
    ∷ (pos 204, "NO_CONTENT", "No Content")
    ∷ (pos 205, "RESET_CONTENT", "Reset Content")
    ∷ (pos 206, "PARTIAL_CONTENT", "Partial Content")
    ∷ (pos 207, "MULTI_STATUS", "Multi-Status")
    ∷ (pos 208, "ALREADY_REPORTED", "Already Reported")
    ∷ (pos 226, "IM_USED", "IM Used")
    ∷ (pos 300, "MULTIPLE_CHOICES", "Multiple Choices")
    ∷ (pos 301, "MOVED_PERMANENTLY", "Moved Permanently")
    ∷ (pos 302, "FOUND", "Found")
    ∷ (pos 303, "SEE_OTHER", "See Other")
    ∷ (pos 304, "NOT_MODIFIED", "Not Modified")
    ∷ (pos 305, "USE_PROXY", "Use Proxy")
    ∷ (pos 307, "TEMPORARY_REDIRECT", "Temporary Redirect")
    ∷ (pos 308, "PERMANENT_REDIRECT", "Permanent Redirect")
    ∷ (pos 400, "BAD_REQUEST", "Bad Request")
    ∷ (pos 401, "UNAUTHORIZED", "Unauthorized")
    ∷ (pos 402, "PAYMENT_REQUIRED", "Payment Required")
    ∷ (pos 403, "FORBIDDEN", "Forbidden")
    ∷ (pos 404, "NOT_FOUND", "Not Found")
    ∷ (pos 405, "METHOD_NOT_ALLOWED", "Method Not Allowed")
    ∷ (pos 406, "NOT_ACCEPTABLE", "Not Acceptable")
    ∷ (pos 407, "PROXY_AUTHENTICATION_REQUIRED", "Proxy Authentication Required")
    ∷ (pos 408, "REQUEST_TIMEOUT", "Request Timeout")
    ∷ (pos 409, "CONFLICT", "Conflict")
    ∷ (pos 410, "GONE", "Gone")
    ∷ (pos 411, "LENGTH_REQUIRED", "Length Required")
    ∷ (pos 412, "PRECONDITION_FAILED", "Precondition Failed")
    ∷ (pos 413, "PAYLOAD_TOO_LARGE", "Payload Too Large")
    ∷ (pos 414, "URI_TOO_LONG", "URI Too Long")
    ∷ (pos 415, "UNSUPPORTED_MEDIA_TYPE", "Unsupported Media Type")
    ∷ (pos 416, "RANGE_NOT_SATISFIABLE", "Range Not Satisfiable")
    ∷ (pos 417, "EXPECTATION_FAILED", "Expectation Failed")
    ∷ (pos 421, "MISDIRECTED_REQUEST", "Misdirected Request")
    ∷ (pos 422, "UNPROCESSABLE_ENTITY", "Unprocessable Entity")
    ∷ (pos 423, "LOCKED", "Locked")
    ∷ (pos 424, "FAILED_DEPENDENCY", "Failed Dependency")
    ∷ (pos 426, "UPGRADE_REQUIRED", "Upgrade Required")
    ∷ (pos 428, "PRECONDITION_REQUIRED", "Precondition Required")
    ∷ (pos 429, "TOO_MANY_REQUESTS", "Too Many Requests")
    ∷ (pos 431, "REQUEST_HEADER_FIELDS_TOO_LARGE", "Request Header Fields Too Large")
    ∷ (pos 451, "UNAVAILABLE_FOR_LEGAL_REASONS", "Unavailable For Legal Reasons")
    ∷ (pos 500, "INTERNAL_SERVER_ERROR", "Internal Server Error")
    ∷ (pos 501, "NOT_IMPLEMENTED", "Not Implemented")
    ∷ (pos 502, "BAD_GATEWAY", "Bad Gateway")
    ∷ (pos 503, "SERVICE_UNAVAILABLE", "Service Unavailable")
    ∷ (pos 504, "GATEWAY_TIMEOUT", "Gateway Timeout")
    ∷ (pos 505, "HTTP_VERSION_NOT_SUPPORTED", "HTTP Version Not Supported")
    ∷ (pos 506, "VARIANT_ALSO_NEGOTIATES", "Variant Also Negotiates")
    ∷ (pos 507, "INSUFFICIENT_STORAGE", "Insufficient Storage")
    ∷ (pos 508, "LOOP_DETECTED", "Loop Detected")
    ∷ (pos 510, "NOT_EXTENDED", "Not Extended")
    ∷ (pos 511, "NETWORK_AUTHENTICATION_REQUIRED", "Network Authentication Required")
    ∷ []

-- `HTTP_METHOD_MAP`
unfoldable pub method_map : List Row
method_map =
    (pos 0, "DELETE", "DELETE")
    ∷ (pos 1, "GET", "GET")
    ∷ (pos 2, "HEAD", "HEAD")
    ∷ (pos 3, "POST", "POST")
    ∷ (pos 4, "PUT", "PUT")
    ∷ (pos 5, "CONNECT", "CONNECT")
    ∷ (pos 6, "OPTIONS", "OPTIONS")
    ∷ (pos 7, "TRACE", "TRACE")
    ∷ (pos 8, "COPY", "COPY")
    ∷ (pos 9, "LOCK", "LOCK")
    ∷ (pos 10, "MKCOL", "MKCOL")
    ∷ (pos 11, "MOVE", "MOVE")
    ∷ (pos 12, "PROPFIND", "PROPFIND")
    ∷ (pos 13, "PROPPATCH", "PROPPATCH")
    ∷ (pos 14, "SEARCH", "SEARCH")
    ∷ (pos 15, "UNLOCK", "UNLOCK")
    ∷ (pos 16, "BIND", "BIND")
    ∷ (pos 17, "REBIND", "REBIND")
    ∷ (pos 18, "UNBIND", "UNBIND")
    ∷ (pos 19, "ACL", "ACL")
    ∷ (pos 20, "REPORT", "REPORT")
    ∷ (pos 21, "MKACTIVITY", "MKACTIVITY")
    ∷ (pos 22, "CHECKOUT", "CHECKOUT")
    ∷ (pos 23, "MERGE", "MERGE")
    ∷ (pos 24, "MSEARCH", "M-SEARCH")
    ∷ (pos 25, "NOTIFY", "NOTIFY")
    ∷ (pos 26, "SUBSCRIBE", "SUBSCRIBE")
    ∷ (pos 27, "UNSUBSCRIBE", "UNSUBSCRIBE")
    ∷ (pos 28, "PATCH", "PATCH")
    ∷ (pos 29, "PURGE", "PURGE")
    ∷ (pos 30, "MKCALENDAR", "MKCALENDAR")
    ∷ (pos 31, "LINK", "LINK")
    ∷ (pos 32, "UNLINK", "UNLINK")
    ∷ (pos 33, "SOURCE", "SOURCE")
    ∷ []

-- `HTTP_ERRNO_MAP`; the numbers are those that `enum http_errno` gives its entries in turn.
unfoldable pub errno_map : List Row
errno_map =
    (pos 0, "OK", "success")
    ∷ (pos 1, "CB_message_begin", "the on_message_begin callback failed")
    ∷ (pos 2, "CB_url", "the on_url callback failed")
    ∷ (pos 3, "CB_header_field", "the on_header_field callback failed")
    ∷ (pos 4, "CB_header_value", "the on_header_value callback failed")
    ∷ (pos 5, "CB_headers_complete", "the on_headers_complete callback failed")
    ∷ (pos 6, "CB_body", "the on_body callback failed")
    ∷ (pos 7, "CB_message_complete", "the on_message_complete callback failed")
    ∷ (pos 8, "CB_status", "the on_status callback failed")
    ∷ (pos 9, "CB_chunk_header", "the on_chunk_header callback failed")
    ∷ (pos 10, "CB_chunk_complete", "the on_chunk_complete callback failed")
    ∷ (pos 11, "INVALID_EOF_STATE", "stream ended at an unexpected time")
    ∷ (pos 12, "HEADER_OVERFLOW", "too many header bytes seen; overflow detected")
    ∷ (pos 13, "CLOSED_CONNECTION", "data received after completed connection: close message")
    ∷ (pos 14, "INVALID_VERSION", "invalid HTTP version")
    ∷ (pos 15, "INVALID_STATUS", "invalid HTTP status code")
    ∷ (pos 16, "INVALID_METHOD", "invalid HTTP method")
    ∷ (pos 17, "INVALID_URL", "invalid URL")
    ∷ (pos 18, "INVALID_HOST", "invalid host")
    ∷ (pos 19, "INVALID_PORT", "invalid port")
    ∷ (pos 20, "INVALID_PATH", "invalid path")
    ∷ (pos 21, "INVALID_QUERY_STRING", "invalid query string")
    ∷ (pos 22, "INVALID_FRAGMENT", "invalid fragment")
    ∷ (pos 23, "LF_EXPECTED", "LF character expected")
    ∷ (pos 24, "INVALID_HEADER_TOKEN", "invalid character in header")
    ∷ (pos 25, "INVALID_CONTENT_LENGTH", "invalid character in content-length header")
    ∷ (pos 26, "UNEXPECTED_CONTENT_LENGTH", "unexpected content-length header")
    ∷ (pos 27, "INVALID_CHUNK_SIZE", "invalid character in chunk size header")
    ∷ (pos 28, "INVALID_CONSTANT", "invalid constant string")
    ∷ (pos 29, "INVALID_INTERNAL_STATE", "encountered unexpected internal state")
    ∷ (pos 30, "STRICT", "strict mode assertion failed")
    ∷ (pos 31, "PAUSED", "parser is paused")
    ∷ (pos 32, "UNKNOWN", "an unknown error occurred")
    ∷ []

-- `switch (status) { case ...: str = #name; }` with `str` preset.
unfoldable pub name_in : Bytes → ℤ → List Row → Bytes
name_in preset n [] = preset
name_in preset n ((i, name, text) ∷ rows) = if eq_int n i then codes name else name_in preset n rows

-- The same with `str = #string`.
unfoldable pub text_in : Bytes → ℤ → List Row → Bytes
text_in preset n [] = preset
text_in preset n ((i, name, text) ∷ rows) = if eq_int n i then codes text else text_in preset n rows
