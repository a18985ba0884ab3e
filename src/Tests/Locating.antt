-- ===== src/Tests/Locating.antt =====
-- parseUri, the expression of packets and io.connect at concrete texts.
use socket_io_java.Common.{
  ℕ, Bool, true, false, none, some, ◌≡◌, refl, Text, [], ◌∷◌, codes, InClass, is_digit, text_eq,
  nat_eq, ◌&&◌, arith,
}
use socket_io_java.Regex.{search, exec}
use socket_io_java.Parser.Decode.{find_pieces, decode_ack}
use socket_io_java.Parser.Expression.{packet_regex, map_pieces}
use socket_io_java.Parser.Expression.Acknowledgement.{ack_regex, ack_pieces, expressions_agree}
use socket_io_java.Parser.Packet.{no_packet}
use socket_io_java.Value.{bool, arr, nil, cons}
use socket_io_java.Tests.Samples.{sample_json}
use socket_io_java.Util.Address.{Parts, parse_uri, none_of}
use socket_io_java.Util.Address.Written.{
  Written, IsWritten, written, parts_written, parse_uri-written, parse_uri-total,
}
use socket_io_java.Client.Sharing.{Uri, page, Sockets}
use socket_io_java.Client.Addresses.{address_of}
use socket_io_java.Client.Details.{
  as_text, as_number, as_flag, connect_options, socket_options, address_in, connect_options-address,
}
use socket_io_java.Client.Locating.{
  forces, Connected, io_connect, io_connect_again, io_connect-name_port,
}

abbrev every : (ℕ → Bool) → Text → Bool
every p [] = true
every p (x ∷ t) = p x && every p t

every-InClass : (p : ℕ → Bool) (t : Text) → every p t ≡ true → InClass p t
every-InClass p [] h = tt
every-InClass p (x ∷ t) h = (ground arith, every-InClass p t (ground arith))

abbrev whole_address : Text
whole_address = codes "https://joe:x@a.org:80/d/e/f.html?q=1#top"

whole_parts :
    parse_uri whole_address
    ≡ some record {
      source = whole_address;
      protocol = codes "https";
      authority_text = codes "joe:x@a.org:80";
      user_info = codes "joe:x";
      user = codes "joe";
      password = codes "x";
      host = codes "a.org";
      port = codes "80";
      relative_text = codes "/d/e/f.html?q=1#top";
      path = codes "/d/e/f.html";
      directory = codes "/d/e/";
      file = codes "f.html";
      query = codes "q=1";
      anchor = codes "top";
    }
unfolding parse_uri
whole_parts = refl

abbrev chat_written : Written
chat_written = record {
  first = b'h';
  protocol = codes "ttp";
  host = codes "a.b";
  port = some (codes "80");
  path = some (codes "c");
  query = none;
}

chat_written-IsWritten : IsWritten chat_written
chat_written-IsWritten = record {
  protocol = every-InClass (none_of (codes ":/?#.")) (codes "http") refl;
  host = every-InClass (none_of (codes ":/?#")) (codes "a.b") refl;
  port = every-InClass is_digit (codes "80") refl;
  path = every-InClass (none_of (codes "?#.")) (codes "c") refl;
  query = tt;
  no_user = every-InClass (none_of (codes "@")) (written chat_written) refl;
}

parse_uri-written_example : parse_uri (codes "http://a.b:80/c") ≡ some (parts_written chat_written)
parse_uri-written_example = parse_uri-written chat_written chat_written-IsWritten

odd_address_read : (p : Parts) × (parse_uri (codes "?#a/b:c@") ≡ some p)
odd_address_read = parse_uri-total (codes "?#a/b:c@")

io_connect-name_port_example :
    let w =
      page (record { protocol = codes "http:"; hostname = codes "o"; port = [] }) (codes "o") in
    (c : Connected) × (io_connect w (codes "me:80") [] (record { shared = []; made = 3 }) ≡ some c)
    × (c.options.host ≡ codes "80")
io_connect-name_port_example =
    io_connect-name_port
      (page (record { protocol = codes "http:"; hostname = codes "o"; port = [] }) (codes "o")) b'm'
      (codes "e") b'8' (codes "0") (record { shared = []; made = 3 })
      (every-InClass (none_of (codes ":/?#.@")) (codes "me") refl)
      (every-InClass is_digit (codes "80") refl)

packet_pieces :
    map_pieces (search packet_regex (codes "x:y5:12+:/chat:a:b"))
    ≡ some record {
      number = codes "y5";
      id = codes "12";
      plus = true;
      endpoint = codes "/chat";
      rest = codes "a:b";
    }
unfolding search packet_regex
packet_pieces = refl

expressions_agree_example :
    (find_pieces [] (codes "4+[true]:7+:")
      ≡ map_pieces (search packet_regex (codes "4+[true]:7+:")))
    × (decode_ack sample_json no_packet (codes "4+[true]:7+:")
        ≡ ack_pieces sample_json no_packet (exec ack_regex (codes "4+[true]:7+:")))
expressions_agree_example = expressions_agree sample_json no_packet (codes "4+[true]:7+:")

ack_read :
    ack_pieces sample_json no_packet (exec ack_regex (codes "4+[true]"))
    ≡ record no_packet { ack_id = some (codes "4"); args = some (arr (cons (bool true) nil)) }
unfolding exec ack_regex
ack_read = refl

abbrev news_written : Written
news_written = record chat_written { path = some []; query = some (codes "x=1") }

news_written-IsWritten : IsWritten news_written
news_written-IsWritten = record {
  protocol = every-InClass (none_of (codes ":/?#.")) (codes "http") refl;
  host = every-InClass (none_of (codes ":/?#")) (codes "a.b") refl;
  port = every-InClass is_digit (codes "80") refl;
  path = tt;
  query = every-InClass (none_of (codes "#")) (codes "x=1") refl;
  no_user = every-InClass (none_of (codes "@")) (written news_written) refl;
}

io_connect_again_example :
    let w =
      page (record { protocol = codes "http:"; hostname = codes "o"; port = [] }) (codes "o") in
    let s : Sockets = record { shared = []; made = 3 } in
    (c : Connected) × (d : Connected) × (io_connect w (codes "http://a.b:80/c") [] s ≡ some c)
    × (io_connect w (codes "http://a.b:80/?x=1") [] c.sockets ≡ some d)
    × (d.socket ≡ c.socket)
    × (d.sockets ≡ c.sockets)
    × (c.name ≡ codes "/c")
    × (d.name ≡ [])
io_connect_again_example =
    io_connect_again
      (page (record { protocol = codes "http:"; hostname = codes "o"; port = [] }) (codes "o"))
      chat_written (some []) (some (codes "x=1")) (record { shared = []; made = 3 })
      chat_written-IsWritten news_written-IsWritten

-- A server whose name is that of an option.
abbrev hidden : Uri
hidden = record {
  protocol = codes "https";
  host = codes "secure";
  port = [];
  path = [];
  query = codes "x=1";
}

connect_options-address_example : address_in (socket_options (connect_options hidden [])) ≡ record {
  host = codes "secure";
  port = codes "443";
  secure = false;
  resource = codes "socket.io";
  base_query = codes "x=1";
}
unfolding address_of
connect_options-address_example = connect_options-address hidden

-- The details of a call take the place of what the address says.
detailed :
    address_in (
      socket_options (
        connect_options hidden
          ((codes "secure", as_flag true) ∷ (codes "port", as_number (codes "8443")) ∷ [])))
    ≡ record (address_in (socket_options (connect_options hidden []))) { port = codes "8443" }
unfolding address_in socket_options connect_options
detailed = refl

forced :
    forces (connect_options hidden ((codes "force new connection", as_text (codes "yes")) ∷ []))
    ≡ true
unfolding forces connect_options
forced = refl
