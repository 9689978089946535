-- ===== src/Lib.antt =====
-- A verification library for the distributed system manager: one program that finds the machines
-- of a local network that run it too, sends them files, and divides a computation over a training
-- file among them. Paths below are from the repository's root.
--
-- The program. `connection` (src/connection.cpp) starts three threads: a responder to UDP
-- broadcasts (src/udpServer.cpp), a TCP listener that starts a handler in a thread of its own for
-- each connection (src/tcpServer.cpp, src/serverService.cpp, src/server commands/), and the command
-- line (src/clientsCommand.cpp, src/Clients Commands/). The handlers share global variables: the
-- flag that says whether files may come, the path and the progress of the transfer, and two signals
-- (src/threadSafety.cpp). `runDistributiveSystems` searches for servers, divides the training file
-- into a chunk for each, computes the first chunk itself and has every other server compute its
-- own: it sends the code, a reducer and the chunk by the same transfer that `sendFile` uses.
--
-- The files:
--   Base         Boolean tests, lists, signed integers and C strings over the native numbers.
--   Status       headers/status_codes.hpp, src/Status_codes.cpp.
--   ThreadSafety src/threadSafety.cpp, headers/thread_safety.hpp: `wait` and `resume` as steps.
--   Node         the global variables, beside the operating system's calls on the server's side, and
--                the monad `Prog` of programs that may return early.
--   ShareFile    src/shareFileService: Wire (integers as bytes), Receive (`recv_all`, `create_dirs`,
--                `receive_file`), Send (`send_all_sync`, `send_file_zero_copy`, both `send_file`),
--                Healthy and Send.Healthy (what is asked of the system), Transfer (both ends).
--   Server       Handlers (src/server commands/handlestatus.cpp, connect.cpp, receivefile.cpp and
--                `handle_share_file_server`; Closing: how often a handler closes its connection's
--                descriptor), Listener (src/tcpServer.cpp, src/serverService.cpp), Responder
--                (src/udpServer.cpp), Compute (`compileCode`, `distributiveComputing` and the
--                loop of `handle_distributive_systems` of
--                src/server commands/distributivecomputing/linuxdistributivecomputing.cpp),
--                Session (the rest of that handler, and the signals between threads as steps).
--   Sockets      src/Sockets/linuxSockets.cpp and headers/sockets.hpp; Windows (what
--                src/Sockets/windowsSockets.cpp does otherwise), Descriptors (who owns a descriptor
--                while handlers run, as steps).
--   Windows      windowsdistributivecomputing.cpp of src/Clients Commands/distributedcomputing and
--                of src/server commands/distributivecomputing: System (the calls, `pread_windows`),
--                Feed and Child (the program that computes), Divide (`divideFileIntoChunks`), Run
--                (a node's part, the plan and, in Session, the whole run), Session (the server's
--                handler).
--   ClientCommands  src/clientsCommand.cpp: Table, Levenshtein, Suggest (`find_closest_command`),
--                Shell and Commands (the loop of `commands`), Talk (`sendToServer` with connect.cpp,
--                handlestatus.cpp, recievefile.cpp and `sending file.cpp` of src/Clients Commands). The command
--                `exit` (exit.cpp) ends the loop.
--   Memory       the client's memory: blocks, pointers, `malloc` and `free`, and uses of memory that
--                is not the program's.
--   Discovery    src/Clients Commands/list connections.cpp, and `findTotalConnections`; Lists: the
--                same with its pointers, on the client's memory; Closes: its socket's descriptor.
--   Distribute   src/Clients Commands/distributedcomputing/linuxdistributivecomputing.cpp: Align
--                (`adjustToNextLine`), Chunks (`divideFileIntoChunks`), Local
--                (`distributiveComputingLocal`), Parse (`stoll`, `stoi`, `to_string`), Network
--                (`distributiveComputingOverNetwork`), Run (`handle_distributive_systems`;
--                Session: the whole of it, with `freeMemory`, on the client's memory).
--   Start        src/connection.cpp and main.cpp.
--   Tests        small systems that satisfy what is asked of the system, and the theorems at inputs.
--
-- State. A server's function takes and gives a `Node`: the globals, and a `world` of a type that is
-- a parameter, for what lies outside the program. The operating system's calls (`recv`, `send`,
-- `open`, `write`, `pread`, `sendfile`, `fork`, `exec`, `waitpid`, ...) are the fields of the records
-- `ServerOs`, `ClientOs`, `ResponderOs`, `DiscoveryOs`, `ComputeOs`, `SocketOs`, `FileOs` and
-- `WindowsOs` over that world; theorems on runs in which nothing of the system fails take its documented behaviour as a
-- record of hypotheses (`Healthy`, `ClientHealthy`, `ReadsFile`, `PipeHealthy`, `Works`, `Counts`,
-- `Closes`, `CountsCloses`, `Delivers`). Handlers are functions run one at a time; how threads
-- interleave is modelled for the two signals and for the descriptors only, as relations `Step` with
-- the states that they reach.
--
-- Loops and fuel. A loop over received or sent bytes takes as much fuel as there are bytes left: each
-- round moves one byte at least or ends the loop. `adjustToNextLine` takes 16384 rounds, its own
-- bound in bytes (`scan_fuel` shows that more rounds change nothing). The loop that receives servers'
-- answers takes one round for each free entry. The loop that reads a program's output lasts as long
-- as the program writes, and the server's loop over its part may never end, so their counts of
-- rounds are arguments, and running out of them is a result of its own. The loops of `commands` and
-- of the UDP responder do not end: their models run as many of the first rounds as are asked for.
--
-- Integers. The C++ code's offsets and sizes are 64-bit; the model's are natural numbers, or
-- integers where they can be negative, and the wire format cuts them to their bytes. A file below
-- 2^61 bytes overflows none of the sums and products of the division.
--
-- Not modelled: printing and progress bars (`TransferStats`, `ProgressUI`), which use floating-point
-- numbers and clock times; the timer of a run; and the build.
-- `src/server commands/distributive computing.cpp` repeats linuxdistributivecomputing.cpp.
pub mod Base
pub mod Memory
pub mod Status
pub mod ThreadSafety
pub mod Node
pub mod ShareFile
pub mod Sockets
pub mod Server
pub mod Windows
pub mod ClientCommands
pub mod Discovery
pub mod Distribute
pub mod Start
pub mod Tests
