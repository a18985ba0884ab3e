-- ===== src/Browser/Checks.antt =====
-- `check` and `xdomainCheck` of the transports, and what Socket.getTransport makes of them.
use socket_io_java.Common.{
  ◌++◌, Bool, true, false, not, ◌&&◌, ◌||◌, Option, none, some, ◌≡◌, ◌≢◌, refl, arith, Text, List,
  [], ◌∷◌, codes, if◌then◌else◌, ◌==◌, text_eq, nat_eq,
}
use socket_io_java.Client.State.{
  TransportKind, websocket, flashsocket, htmlfile, xhr_polling, jsonp_polling, name_of,
}
use socket_io_java.Client.Fallback.{get_transport}
use socket_io_java.Client.Fallback.Rounds.{IsNamed}
use socket_io_java.Browser.Requests.{
  Browser, Request, x_domain, xml_http, microsoft, Made, thrown, nothing, made, request,
}

-- What the checks read of a socket: `options.secure` and `isXDomain()`.
pub record Target : Type 0 where
  pub secure : Bool
  pub crosses : Bool

abbrev is_x_domain_request : Request → Bool
is_x_domain_request x_domain = true
is_x_domain_request _ = false

abbrev accepts : Browser → Bool → Made → Bool
accepts b secure thrown = false
accepts b secure nothing = false
accepts b secure (made r) = not (
    is_x_domain_request r
    && not ((if secure then codes "https:" else codes "http:") == b.location_protocol))

-- XHR.check(socket, xdomain), where no socket counts as one that is not secure.
unfoldable pub xhr_check : Browser → Bool → Bool → Bool
unfolding request
xhr_check b secure xdomain = accepts b secure (request b xdomain)

-- XHR.xdomainCheck passes no socket.
unfoldable pub xhr_xdomain_check : Browser → Bool
unfolding xhr_check
xhr_xdomain_check b = xhr_check b false true

-- HTMLFile.check calls XHR.check without arguments.
unfoldable pub htmlfile_check : Browser → Bool
unfolding xhr_check
htmlfile_check b = b.has_window && (b.active_x && (b.active_x_file && xhr_check b false false))

unfoldable pub ws_check : Browser → Bool
ws_check b = (b.web_socket && not b.add_task) || b.moz_web_socket

unfoldable pub flashsocket_check : Browser → Bool
flashsocket_check b = b.web_socket && (b.initialize && b.flash_10)

unfoldable pub jsonp_check : Browser → Bool
jsonp_check b = b.has_document

-- `check(this)`.
unfoldable pub check : Browser → Target → TransportKind → Bool
unfolding ws_check flashsocket_check htmlfile_check xhr_check jsonp_check
check b s websocket = ws_check b
check b s flashsocket = flashsocket_check b
check b s htmlfile = htmlfile_check b
check b s xhr_polling = xhr_check b s.secure false
check b s jsonp_polling = jsonp_check b

unfoldable pub xdomain_check : Browser → TransportKind → Bool
unfolding xhr_xdomain_check
xdomain_check b websocket = true
xdomain_check b flashsocket = true
xdomain_check b htmlfile = false
xdomain_check b xhr_polling = xhr_xdomain_check b
xdomain_check b jsonp_polling = true

-- The test of getTransport on a transport that io.Transport has.
unfoldable pub usable_kind : Browser → Target → TransportKind → Bool
unfolding check xdomain_check
usable_kind b s k = check b s k && (not s.crosses || xdomain_check b k)

-- `io.Transport[name]`.
unfoldable pub kind_named : Text → Option TransportKind
kind_named t =
    if t == name_of websocket
    then some websocket
    else if t == name_of flashsocket
    then some flashsocket
    else if t == name_of htmlfile
    then some htmlfile
    else if t == name_of xhr_polling
    then some xhr_polling
    else if t == name_of jsonp_polling
    then some jsonp_polling
    else none

abbrev usable_named : Browser → Target → Option TransportKind → Bool
usable_named b s none = false
usable_named b s (some k) = usable_kind b s k

unfoldable pub usable : Browser → Target → Text → Bool
unfolding usable_kind kind_named
usable b s name = usable_named b s (kind_named name)

abbrev pub posts_requests : TransportKind → Bool
posts_requests htmlfile = true
posts_requests xhr_polling = true
posts_requests _ = false

and_left : (x y : Bool) → (x && y) ≡ true → x ≡ true
and_left x y h = ground arith

and_right : (x y : Bool) → (x && y) ≡ true → y ≡ true
and_right x y h = ground arith

accepts_made :
    (b : Browser) (secure : Bool) (m : Made)
    → accepts b secure m ≡ true
    → (r : Request) × (m ≡ made r)
accepts_made b secure thrown h = cc
accepts_made b secure nothing h = cc
accepts_made b secure (made r) h = (r, refl)

makes_request :
    (b : Browser) (s : Target) (k : TransportKind) (c : Bool)
    → posts_requests k ≡ true
    → (check b s k && (not c || xdomain_check b k)) ≡ true
    → (r : Request) × (request b c ≡ made r)
unfolding check xdomain_check
makes_request b s websocket c p u = cc
makes_request b s flashsocket c p u = cc
makes_request b s htmlfile false p u = accepts_made b false (request b false) (
    and_right b.active_x_file _
      (and_right b.active_x _ (and_right b.has_window _ (and_left (htmlfile_check b) _ u))))
makes_request b s htmlfile true p u = cc (and_right (htmlfile_check b) false u)
makes_request b s xhr_polling false p u =
    accepts_made b s.secure (request b false) (and_left (xhr_check b s.secure false) _ u)
makes_request b s xhr_polling true p u =
    accepts_made b false (request b true)
      (and_right (xhr_check b s.secure false) (xhr_xdomain_check b) u)
makes_request b s jsonp_polling c p u = cc

accepts_other :
    (b : Browser) (secure : Bool) (r : Request) → r ≢ x_domain → accepts b secure (made r) ≡ true
accepts_other b secure x_domain n = absurd (n refl)
accepts_other b secure xml_http n = refl
accepts_other b secure microsoft n = refl

request_x_domain : (b : Browser) → b.x_domain_request ≡ true → request b true ≡ made x_domain
unfolding request
request_x_domain b x = ground arith

not-not : (x : Bool) → not (not x) ≡ x
not-not true = refl
not-not false = refl

-- A transport that posts and that getTransport finds usable can make its requests: util.request(isXDomain()) neither throws nor
-- gives null.
pub usable_makes_request :
    (b : Browser) (s : Target) (k : TransportKind)
    → posts_requests k ≡ true
    → usable_kind b s k ≡ true
    → (r : Request) × (request b s.crosses ≡ made r)
unfolding usable_kind
usable_makes_request b s k p u = makes_request b s k s.crosses p u

-- A page always has a transport: where the names offered have jsonp-polling and no empty name, getTransport finds one.
page_has_transport :
    (b : Browser) (s : Target) (ts us : List Text)
    → b.has_document ≡ true
    → IsNamed (usable b s) ts
    → get_transport (usable b s) (ts ++ name_of jsonp_polling ∷ us) ≢ none
unfolding get_transport usable
page_has_transport b s [] us d h = ground arith
page_has_transport b s (t ∷ ts) us d h = ground (arith, page_has_transport b s ts us d h.1)

-- Whether XHR polling is used across domains in a browser with XDomainRequest depends on the protocol of the page
-- alone, and never on the one of the socket: over http a secure socket gets an XDomainRequest too.
usable_cross_protocol :
    (b : Browser) (secure : Bool) (r : Request)
    → b.x_domain_request ≡ true
    → request b false ≡ made r
    → r ≢ x_domain
    → (usable_kind b (record { secure = secure; crosses = true }) xhr_polling
        ≡ (codes "http:" == b.location_protocol))
      × (request b true ≡ made x_domain)
unfolding usable_kind check xdomain_check
usable_cross_protocol b secure r x e n = (
  rw e (rw (accepts_other b secure r n) (rw (request_x_domain b x) (not-not _))),
  request_x_domain b x,
)
