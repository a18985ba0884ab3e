-- ===== src/Client/Addresses.antt =====
-- The addresses that the client asks for: Transport.prepareUrl, XHR.request, the handshake, and Socket.isXDomain.
use socket_io_java.Common.{
  ℕ, Bool, true, false, not, ◌||◌, some, ◌≡◌, refl, Text, [], ◌∷◌, ◌++◌, codes, decimal,
  if◌then◌else◌, ◌==◌, text_eq, nat_eq, beq_refl, arith,
}
use socket_io_java.Util.Query.{query}
use socket_io_java.Client.State.{TransportKind, streams, name_of}
use socket_io_java.Client.Sharing.{Uri, Location, page, complete, option_port, or_text, is_https}

-- The options that make up an address.
pub record Address : Type 0 where
  pub host : Text
  pub port : Text
  pub secure : Bool
  pub resource : Text
  pub base_query : Text

-- `scheme` of WS and of XHR.
unfoldable pub scheme : TransportKind → Bool → Text
scheme k secure =
    if streams k
    then (if secure then codes "wss" else codes "ws")
    else if secure
    then codes "https"
    else codes "http"

-- io.protocol.
abbrev pub protocol : Text
protocol = codes "1"

abbrev front : TransportKind → Address → Text
front k a =
    scheme k a.secure
    ++ (codes "://"
        ++ (a.host
            ++ (codes ":"
                ++ (a.port
                    ++ (codes "/"
                        ++ (a.resource
                            ++ (codes "/"
                                ++ (protocol ++ (codes "/" ++ (name_of k ++ codes "/"))))))))))

-- Transport.prepareUrl.
unfoldable pub prepare_url : TransportKind → Address → Text → Text
unfolding scheme
prepare_url k a sessid = front k a ++ sessid

-- The address of XHR.request and HTMLFile.get, at a time.
unfoldable pub request_url : TransportKind → Address → Text → ℕ → Text
unfolding prepare_url query
request_url k a sessid time =
    prepare_url k a sessid ++ query (some a.base_query) (some (codes "t=" ++ decimal time))

-- The address of JSONPPolling.get and post, with the index of its function in io.j.
unfoldable pub script_url : TransportKind → Address → Text → ℕ → ℕ → Text
unfolding prepare_url query
script_url k a sessid time index =
    prepare_url k a sessid
    ++ query (some a.base_query)
        (some (codes "t=" ++ (decimal time ++ (codes "&i=" ++ decimal index))))

-- The pieces that Socket.handshake joins by '/'.
unfoldable pub handshake_url : Address → ℕ → Text
unfolding query
handshake_url a time =
    codes "http"
    ++ ((if a.secure then codes "s" else [])
        ++ (codes "://"
            ++ (a.host
                ++ (codes ":"
                    ++ (a.port
                        ++ (codes "/"
                            ++ (a.resource
                                ++ (codes "/"
                                    ++ (protocol
                                        ++ (codes "/"
                                            ++ query (some a.base_query)
                                                (some (codes "t=" ++ decimal time))))))))))))

-- Socket.isXDomain, in a page at a location.
unfoldable pub is_x_domain : Location → Address → Bool
is_x_domain l a =
    let port = or_text l.port (if l.protocol == codes "https:" then codes "443" else codes "80") in
    not (a.host == l.hostname) || not (a.port == port)

-- The address of the socket that io.connect makes for a parsed uri.
unfoldable pub address_of : Uri → Address
address_of u = record {
  host = u.host;
  port = option_port u;
  secure = is_https u;
  resource = codes "socket.io";
  base_query = u.query;
}

++-cancel : (xs ys zs : Text) → (xs ++ ys) ≡ (xs ++ zs) → ys ≡ zs
++-cancel [] ys zs e = e
++-cancel (x ∷ xs) ys zs e = ++-cancel xs ys zs (cc e)

-- The addresses of two sessions over one transport are different.
prepare_url_injective :
    (k : TransportKind) (a : Address) (sid other : Text)
    → prepare_url k a sid ≡ prepare_url k a other
    → sid ≡ other
unfolding prepare_url
prepare_url_injective k a sid other e = ++-cancel (front k a) sid other e

abbrev own_location : Bool → Text → Text → Location
own_location secure host port = record {
  protocol = (if secure then codes "https:" else codes "http:");
  hostname = host;
  port = port;
}

-- io.connect without an address makes a socket to the page's own server: over http and https and at every port, the
-- socket is not across domains and is secure exactly if the page is.
own_page_not_x_domain :
    (secure : Bool) (host port : Text)
    → let l = own_location secure host port in
      let u =
        complete
          (page l host)
          (record { protocol = []; host = []; port = []; path = []; query = [] }) in
      (is_x_domain l (address_of u) ≡ false) × ((address_of u).secure ≡ secure)
unfolding is_x_domain address_of complete
own_page_not_x_domain true host [] = (ground (arith, beq_refl host), refl)
own_page_not_x_domain true host (c ∷ cs) = (ground (arith, beq_refl host, beq_refl (c ∷ cs)), refl)
own_page_not_x_domain false host [] = (ground (arith, beq_refl host), refl)
own_page_not_x_domain false host (c ∷ cs) = (ground (arith, beq_refl host, beq_refl (c ∷ cs)), refl)
