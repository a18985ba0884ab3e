-- ===== src/Browser/Opening.antt =====
-- What the transports open with: the web socket of WS.open, and the requests of XHR.request.
use socket_io_java.Common.{
  Bool, true, false, Option, none, some, ◌≡◌, ◌≢◌, Text, codes, if◌then◌else◌, ◌==◌, text_eq,
  nat_eq,
}
use socket_io_java.Client.State.{
  TransportKind, websocket, flashsocket, htmlfile, xhr_polling, jsonp_polling,
}
use socket_io_java.Browser.Requests.{Browser, Request, x_domain, Made, made, request}
use socket_io_java.Browser.Checks.{Target}

-- Whose constructor WS.open calls: MozWebSocket, the browser's own WebSocket, or the one that web-socket-js puts in its place.
pub data Constructor : Type 0 where
  moz_socket native_socket emulated : Constructor

abbrev web_socket_of : Bool → Bool → Option Constructor
web_socket_of false tasks = none
web_socket_of true true = some emulated
web_socket_of true false = some native_socket

-- `global.MozWebSocket || global.WebSocket`; `new` throws where there is neither.
unfoldable pub socket_constructor : Browser → Option Constructor
socket_constructor b =
    if b.moz_web_socket then some moz_socket else web_socket_of b.web_socket b.add_task

-- A request that is open and has not been sent.
pub record Opened : Type 0 where
  pub by : Request
  pub method : Text
  pub url : Text
  pub content_type : Option Text

-- `setRequestHeader` is a method of all requests but XDomainRequest, which has a property `contentType`.
abbrev type_of_post : Request → Text
type_of_post x_domain = codes "text/plain"
type_of_post _ = codes "text/plain;charset=UTF-8"

abbrev open_made : Made → Text → Text → Option Opened
open_made (made r) method url = some record {
  by = r;
  method = method;
  url = url;
  content_type = (if method == codes "POST" then some (type_of_post r) else none);
}
open_made _ method url = none

-- XHR.request of a socket, for an address. It throws where util.request throws or gives null.
unfoldable pub open_request : Browser → Target → Text → Text → Option Opened
unfolding request
open_request b s method url = open_made (request b s.crosses) method url

-- What a transport needs to be opened. The web socket of a browser is not the one of web-socket-js. A flash socket needs
-- that one, with the task list that Flashsocket.open calls and a Flash player. HTMLFile.get makes an ActiveX 'htmlfile',
-- and it and XHR polling can make a request for every method and address. A script needs a document to be put into.
abbrev pub CanOpen : Browser → Target → TransportKind → Type 0
CanOpen b s websocket = (c : Constructor) × (socket_constructor b ≡ some c) × (c ≢ emulated)
CanOpen b s flashsocket =
    (socket_constructor b ≢ none)
    × (b.add_task ≡ true)
    × (b.initialize ≡ true)
    × (b.flash_10 ≡ true)
CanOpen b s htmlfile =
    (b.has_window ≡ true)
    × (b.active_x ≡ true)
    × (b.active_x_file ≡ true)
    × ((method url : Text) → open_request b s method url ≢ none)
CanOpen b s xhr_polling = (method url : Text) → open_request b s method url ≢ none
CanOpen b s jsonp_polling = b.has_document ≡ true
