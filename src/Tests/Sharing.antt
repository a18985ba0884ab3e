-- ===== src/Tests/Sharing.antt =====
-- Sockets that calls of io.connect share.
use socket_io_java.Common.{false, ◌≡◌, refl, [], ◌∷◌, codes, text_eq, nat_eq}
use socket_io_java.Client.Sharing.{Uri, Location, page, Sockets, connect}

abbrev home : Location
home = record { protocol = codes "http:"; hostname = codes "a.org"; port = codes "8080" }

abbrev here : Uri
here = record { protocol = []; host = []; port = []; path = []; query = [] }

-- The same address, written out, with a namespace.
abbrev chat : Uri
chat = record {
  protocol = codes "http";
  host = codes "a.org";
  port = codes "8080";
  path = codes "/chat";
  query = [];
}

abbrev one_made : Sockets
one_made = record { shared = (codes "http://a.org:8080", 0) ∷ []; made = 1 }

abbrev none_made : Sockets
none_made = record { shared = []; made = 0 }

connected_once : connect (page home (codes "a.org")) here false none_made ≡ (0, one_made)
unfolding connect
connected_once = refl
