-- ===== src/Lib.antt =====
-- The Socket.IO browser client of this repository,
-- core/src/main/resources/com/glines/socketio/socket.io.js, which the server hands to its pages.
--
-- A page holds an io.Socket. Through io.SocketNamespace it sends messages and events as packets; the
-- socket keeps them in a buffer or gives them to its io.Transport, which writes them with io.parser to
-- a web socket or to posted requests. What comes in is read by io.parser and goes from the transport
-- to the socket, and from there to a namespace, which calls the listeners of its io.EventEmitter. All
-- of these call one another on shared objects, so a connection is one state here, passed from function
-- to function.
--
-- The files, and the functions of socket.io.js that they model:
--   Common, Value: texts, dictionaries and lists; the JavaScript values that travel in packets.
--   Regex: the regular expressions of the file, read as ECMAScript reads them, by backtracking;
--     Regex/Laws and Runs are about what such a search finds.
--   Util/Address: util.parseUri, with its expression. Segments, Paths, Written and Local are about
--     what it reads.
--   Util/Objects: util.merge, mixin and inherit on objects in a heap, which hold one another and have
--     prototypes. Chains and Writes are about what a property reads as.
--   Util/Indexing, Util/Intersect: util.indexOf, util.intersect.
--   Util/Query: util.query, util.chunkQuery, and util.merge on objects of texts.
--   Emitter, Emitter/Emission: EventEmitter.on, once, removeListener, removeAllListeners, listeners;
--     emit. Emitter/View compares the slots of $events (absent, one function, an array) with one list
--     a name.
--   Parser/Packet, Encode, Decode, Payload: the packet object, parser.encodePacket, decodePacket, and
--     encodePayload with decodePayload. Parser/Wire has the packets of the protocol, by a description
--     of their own. Parser/Expression has the expressions of decodePacket as they are written.
--   Client/State: Socket, SocketNamespace and Transport as one record, with a log of what leaves the
--     client.
--   Client/Buffer: Socket.packet, setBuffer, onOpen, onClose, and the ways that transports send.
--   Client/Close: Socket.onDisconnect, the transport's close, onClose and onDisconnect,
--     Socket.reconnect.
--   Client/Namespaces: Socket.of, SocketNamespace.packet, send, emit, and the flag json.
--   Client/Opening: Socket.onConnect, and how a reconnection ends (reset, and maybeReconnect on
--     'connect').
--   Client/Packets: SocketNamespace.onPacket and disconnect, Socket.onPacket, onError and disconnect.
--   Client/Events: Transport.onPacket, onData, onOpen, the handlers of WS.open, XHR.open and XHR.post,
--     get of the polling transports with its ends, and the timers; a run is a sequence of such events.
--   Client/Fallback: Socket.getTransport, and the connection over the transports that remain, in
--     Socket.connect. The length of the list of names bounds the runs of its timer.
--   Client/Publishing: Socket.publish, over the emitters of the socket and its namespaces.
--   Client/Sharing: io.connect from the parsed address on, and util.uniqueUri. Client/Details has the
--     options of the socket that it makes, and Client/Locating puts parseUri before them.
--   Client/Addresses: Transport.prepareUrl with the schemes, the addresses of requests, scripts and
--     the handshake, Socket.isXDomain, and the options that io.connect makes of an address.
--   Client/Handshake: Socket.handshake and connect, up to the choice of a transport.
--   Client/Backoff: Socket.reconnect with maybeReconnect, its timers and delays.
--   Client/Form, Scripts: JSONPPolling.post; io.j, with the handshake by a script and the constructor
--     of JSONPPolling.
--   Client/Creation: the constructor of io.Socket, its handler of 'unload', and Socket.disconnectSync.
--   Client/Flash: open, send and close of the flash transport, and what its ready loads.
--   Client/Frame: relations that every step of a connection keeps; a relation is an instance of its
--     record, and its children go through the operations and the events once for all instances.
--     Client/Delivery (the queue of packets, and messages that are not empty), Client/Polling
--     and Client/Numbering (SocketNamespace.ackPackets and acks) are such instances.
--   Client/Answers: a call over the wire and back, through the namespaces and the parser.
--   Client/Untouched, Layers, Ending, Acknowledgement, Reconnection, Malformed, Disconnection: proofs
--     about the operations.
--   Browser/Requests, Checks, Opening, Loading: util.request and hasCORS; check and xdomainCheck of
--     the transports with the test of Socket.getTransport; XHR.request and the constructor of WS.open;
--     util.on, util.load, util.defer and ready of the transports.
--   Graph: InteractionCounter of samples/d3/src/main/webapp/graph/graph-ic.js. Graph/Window is about
--     the line it draws, Graph/Total about the number it shows.
--   Pointers: pointerTracker.js, surface.js and main.js of samples/pointers/src/main/webapp/public/js.
--   Tests: runs, and the theorems at concrete inputs.
--
-- A text is the list of its UTF-16 code units, and a number is its text. Recursion is structural but
-- for the digits of a number, on the fuel n + 1 for n, which has fewer digits than that; and the
-- functions that close call one another in layers. Client/Layers compares them with the code, and
-- Client/Ending unrolls the code's own calls: nine levels are enough from every state.
--
-- Parameters: JSON.stringify and JSON.parse, WebSocket.__addTask of web-socket-js, and what a
-- listener of the emitter does to it. Of d3, range and max, with their lengths and bounds as
-- hypotheses. A function that the page passes in is its identity. A publication is one entry of the
-- log, and so is a call of Socket.packet, by which the packets that were handed over are counted.
-- Where web-socket-js has put its `__initialize`, its `__addTask` is there too, as a hypothesis of
-- Browser/Opening.
--
-- Not modelled: what a handler of the page does when it is called (in a run it is the next event),
-- so nothing here is about a handler that calls back before the current event ends; property names
-- that objects and arrays have of their own kind ('toString' as a namespace, 'length' as the number
-- of a packet or a reason); length fields of a payload that are no decimal
-- digits; the order of for-in over names that are numbers; errors that the construction of a web
-- socket or a request throws; options that are objects, as document and transports, when a page
-- gives them to io.connect; the timer of 0 behind which iOS sends over a web socket. Events of a
-- transport presuppose that there is one. Client/State has of a reconnection what a connection
-- needs, and a run of Client/Events has no event for Socket.connect, the connect timer and the timer
-- of a reconnection: they are in Client/Handshake, Client/Fallback and Client/Backoff, on states of
-- their own, where a timer of a reconnection has a number and its connect timers are counted. Whether
-- a text that was sent arrives is outside: a post may fail, and its packets are not sent again.
-- In Client/Fallback a transport is ready at once; Browser/Loading has the waiting. Elements of a
-- page are what the code keeps of them: an iframe of a form has its name and whether a handler is
-- set. The copies of swfobject, web-socket-js and json2.js in the file, and of jQuery, d3 and
-- Math.uuid beside the samples, are not modelled. Graph has what its page keeps and draws, but not
-- the elements, scales and transitions of d3. Objects are places in a heap only in Util/Objects.
pub mod Common
pub mod Value
pub mod Regex
pub mod Util
pub mod Parser
pub mod Emitter
pub mod Client
pub mod Browser
pub mod Pointers
pub mod Graph
mod Tests
