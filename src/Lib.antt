-- ===== src/Lib.antt =====
-- A verification library of Simple-Torrent-Client, a BitTorrent client in C++. It models the part
-- of the client that downloads: the pieces of a torrent and their blocks, the storage with its
-- queue and the output file, the connections to the peers with their messages and sockets, and the
-- threads that run the connections against one storage; the torrent file and the bencode parser
-- that reads it; the trackers that name the peers, over UDP and HTTP; the cycles of the client,
-- and its command line.
--
-- How the parts interact. The storage (PieceStorage) holds a queue of pieces and the output file.
-- A connection (PeerConnect), one for each peer and each on a thread of its own, takes a piece
-- from the queue, requests its blocks one by one over its socket (TcpConnect), fills them in from
-- the peer's messages (Message), and hands the complete piece to the storage, which checks the
-- SHA-1 and writes it to the file; a connection that fails, is choked or is terminated gives its
-- piece back to the queue. The main thread (RunDownloadMultithread) waits until every piece is
-- saved and requeues missing pieces near the end. DownloadTorrent loads the torrent file
-- (BencodeParser), makes the storage, and runs DownloadFromTracker: each of its cycles asks the
-- trackers (TorrentTracker, with UdpTracker and UdpClient) for peers, sorts them and removes
-- doubles, and runs RunDownloadMultithread on them.
--
-- Files, with the code they are about (paths from the root of the repository; C++ names in
-- CamelCase become names in snake_case, a method takes the object and gives the new one):
--
--   ByteTools: src/utils/byte_tools.cpp (BytesToInt, IntToBytes, BytesToInt64, Int64ToBytes, BytesToHex)
--   Decimal: std::to_string of an unsigned number, std::stoi and std::stol
--   Bencode: include/utils/BencodeParser.hpp, src/utils/BencodeParser.cpp
--   CommandLine: src/main.cpp
--   Core/TorrentFile: include/core/TorrentFile.hpp, src/core/TorrentFile.cpp
--   Core/Piece: include/core/Piece.hpp, src/core/Piece.cpp (make is the constructor)
--   Core/OutputFile: the std::ofstream of include/core/PieceStorage.hpp
--   Core/PieceStorage: include/core/PieceStorage.hpp, src/core/PieceStorage.cpp (init is the constructor)
--   Core/UdpTracker: include/core/UdpTracker.hpp, src/core/UdpTracker.cpp
--   Core/TorrentTracker: include/core/TorrentTracker.hpp, src/core/TorrentTracker.cpp (ParseUdpUrl, UpdatePeersUdp);
--     Core/TorrentTracker/Http (UpdatePeersHttp, ParseTrackerResponse, ParseCompactPeers),
--     Core/TorrentTracker/Update (UpdatePeers)
--   Core/PeerOrder, Core/TorrentClient: src/core/TorrentClient.cpp (DownloadFromTracker, DownloadTorrent, the main
--     thread of RunDownloadMultithread)
--   Net/Peer, Net/UdpClient: include/net/Peer.hpp, include/net/UdpClient.hpp, src/net/UdpClient.cpp
--   Net/Message: include/net/Message.hpp, src/net/Message.cpp
--   Net/PiecesAvailability: PeerPiecesAvailability of src/net/PeerConnect.cpp
--   Net/TcpConnect: include/net/TcpConnect.hpp, src/net/TcpConnect.cpp
--   Net/PeerConnect: include/net/PeerConnect.hpp, src/net/PeerConnect.cpp (handshake, bitfield, ProcessMessage,
--     HandleConnectionError, Terminate); Net/PeerConnect/Search (GetNextAvailablePiece),
--     Net/PeerConnect/Loop (MainLoop), Net/PeerConnect/Run
--     (EstablishConnection, Run), Net/PeerConnect/Swarm (RunDownloadMultithread of
--     src/core/TorrentClient.cpp)
--   Common: shared helpers; Tests: instances of the theorems and runs of the definitions
--
-- State and errors. Classes are records, and a method is a function from the old object to the new
-- one. An exception is a value of Result; Error has one constructor for each exception thrown. A
-- null PiecePtr is none. A piece has one owner at a time, so it is passed by value; a main loop
-- that reads through a null PiecePtr has an outcome of its own, crashes. The division by a piece
-- length of 0 in the constructor of the storage, which ends the program, is a constructor of Error
-- too. The bencode parser gives a Run: it ends, throws, strays (a read behind the end of a string
-- or a vector, undefined in C++) or goes_on (the fuel is spent). UpdatePeers keeps what it has
-- done to the object when it throws (Tried).
--
-- Numbers. size_t and int are numbers with the reduction modulo 2 ^ 64 or 2 ^ 32 written out where
-- a value can reach it; a negative int is its 32-bit pattern, and to_size_t is its conversion.
-- Strings are lists of bytes.
--
-- Parameters. SHA-1 is OpenSSL's and an argument of the definitions, about which nothing is
-- assumed. What the operating system answers (poll, recv, send, connect, the clock, the random
-- numbers, the outcome of a datagram, the contents of a file, whether the output file opens) is an
-- argument. A write to an open output file is taken to succeed. The response of the HTTP library
-- cpr is an argument, a function of the URL and the parameters.
--
-- Loops and fuel. The constructor of a piece and the zero fill of the output file run on as many
-- rounds as there are bytes, which is enough since each round advances by one byte at least, for
-- the file as long as its length and a chunk are below 2 ^ 64; the theorems on them are about the
-- complete loops. GetNextAvailablePiece has no bound in the source: it runs for a number of rounds
-- here, the outcome searching says that it has not ended, and a theorem says when it ends. The
-- reading loop runs over the answers of recv, and the outcome waiting says that the socket gives
-- no more; MainLoop and Run run over the list of what their rounds meet, and say when they have
-- not ended by then. The bencode parser spends a unit of fuel with each call of Process and each
-- round of a list or a dictionary; as many units as twice the length of the text are enough for a
-- value that is written in full, and where a list or a dictionary is cut off no amount is.
-- std::to_string divides by ten as many times as the number says at most. The cycles of
-- DownloadFromTracker and the main loop are relations, by induction on the rounds that a run
-- takes.
--
-- Threads. A step of Net/PeerConnect/Swarm is what one thread does between two moments at which
-- another may run; each call on the storage is one step, as its mutexes make it (Enqueue takes its
-- two mutexes one after the other and counts as one step too). What a thread has read from the
-- storage may be out of date when it acts on it. In Net/PeerConnect/Loop and Run, which follow one
-- connection, the main thread runs Terminate where the list of what its rounds and passes meet
-- says so: in front of a round, at three places within it, while ReceiveData waits, in front of a
-- pass or while EstablishConnection runs; not within ProcessMessage or a search. Where ReceiveData
-- finds the flag of its socket set, Terminate has run. The call of Terminate by the main thread is
-- one step in both models; the unprotected access to the members of a connection by two threads,
-- which is undefined in C++, is not modelled further.
--
-- Not modelled: the address that recvfrom writes into server_address of UdpClient (where a
-- datagram goes and what comes back is an argument of each call); SHA-1 (CalculateSHA1 is a call
-- of OpenSSL); HTTP itself; printing (PrintStats, PrintMissingPieces, PrintDownloadStatus,
-- PrintUsage); UdpClient::GenerateTransactionId, which nothing calls; the exceptions by which
-- DownloadTorrent ends early; std::sort, std::unique and the texts of exceptions beyond their
-- kind. The int index of the parser and its lengths are taken not to reach 2 ^ 31. Console output
-- and sleeping have no effect on the state and are left out.
mod Common
pub mod ByteTools
pub mod Decimal
pub mod Bencode
pub mod CommandLine
pub mod Core
pub mod Net
mod Tests
