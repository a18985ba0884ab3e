-- ===== src/Tests/Scripting.antt =====
-- Scripts of two sockets in one page.
use socket_io_java.Common.{true, false, ◌≡◌, refl, List, [], ◌∷◌, codes}
use socket_io_java.Client.Addresses.{Address}
use socket_io_java.Client.Scripts.{
  Scripts, handshake_of, transport_of, Call, handshakes, makes, gets, calls, IsRouted,
  calls-IsRouted, handshake, new_transport, get_script,
}

abbrev server : Address
server = record {
  host = codes "example.org";
  port = codes "8080";
  secure = false;
  resource = codes "socket.io";
  base_query = [];
}

abbrev empty : Scripts
empty = record { j = []; indices = []; asked = [] }

-- Two handshakes across domains without CORS, and a transport of the second socket.
abbrev two_sockets : List Call
two_sockets =
    handshakes true false server 5 0
    ∷ handshakes true false server 6 1
    ∷ makes 1
    ∷ gets server (codes "4f") 7 1
    ∷ []

calls-IsRouted_example : IsRouted (calls two_sockets empty)
calls-IsRouted_example = calls-IsRouted two_sockets empty (tt, tt)

functions : (calls two_sockets empty).j ≡ handshake_of 0 ∷ handshake_of 1 ∷ transport_of 1 ∷ []
unfolding handshake new_transport get_script
functions = refl
