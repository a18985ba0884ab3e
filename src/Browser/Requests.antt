-- ===== src/Browser/Requests.antt =====
-- util.request and util.ua.hasCORS: the requests that a browser can make.
use socket_io_java.Common.{Bool, true, false, not, ◌&&◌, ◌||◌, ◌≡◌, ◌⊎◌, arith, Text, if◌then◌else◌}

-- The globals of a browser. XMLHttpRequest may be there and its constructor throw, and an object of it may have
-- `withCredentials`; the ActiveX objects can be made or not.
pub record Browser : Type 0 where
  pub has_window : Bool
  pub has_document : Bool
  pub location_protocol : Text
  pub x_domain_request : Bool
  pub xml_http_request : Bool
  pub request_throws : Bool
  pub with_credentials : Bool
  pub active_x_request : Bool
  pub active_x : Bool
  pub active_x_file : Bool
  pub web_socket : Bool
  pub add_task : Bool
  pub initialize : Bool
  pub moz_web_socket : Bool
  pub flash_10 : Bool

pub data Request : Type 0 where
  x_domain xml_http microsoft : Request

-- What a call of util.request comes to: an exception, null, or a request.
pub data Made : Type 0 where
  thrown nothing : Made
  made : Request → Made

-- util.ua.hasCORS.
unfoldable pub has_cors : Browser → Bool
has_cors b = b.xml_http_request && (if b.request_throws then false else b.with_credentials)

unfoldable pub request : Browser → Bool → Made
unfolding has_cors
request b xdomain =
    if xdomain && b.x_domain_request
    then made x_domain
    else if b.xml_http_request && (not xdomain || has_cors b)
    then if b.request_throws then thrown else made xml_http
    else if not xdomain && b.active_x_request
    then made microsoft
    else nothing

-- A request to another domain is one that may go there: an XDomainRequest, or an XMLHttpRequest with CORS.
request_crosses :
    (b : Browser) (r : Request)
    → request b true ≡ made r
    → ((r ≡ x_domain) × (b.x_domain_request ≡ true)) ⊎ ((r ≡ xml_http) × (has_cors b ≡ true))
unfolding request has_cors
request_crosses b r h = ground arith
