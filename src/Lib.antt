-- ===== src/Lib.antt =====
-- flowstatd: a NetFlow statistics daemon (src/*.c of the repository). It receives NetFlow packets over
-- UDP, adds up the bytes of each address of the stated networks by hour and by day, writes the counters
-- to a file at midnight, and answers queries over TCP.
--
-- Parts, and where they are modelled:
--   Subnet    src/flowstatd.c (LoadConfig's entries of `statedNetworks`, RcvNetListCmp), src/flowstatd.h
--   Lookup    src/netflow.c (getIPIdx): from an address to its index in `ipTable`
--   Clock     src/fttime.c (ftltime) and src/netflow.c (ConvertNfTime)
--   Flow      src/netflow.c (InsertNfInfoToIpTable): one flow is counted, by Lookup and Clock; Ledger is
--             what the table promises, a ledger by address with nothing about indices
--   V5        src/netflow_handler_v5.c: the records of a packet, each counted by Flow
--   V9        src/netflow_handler_v9.c: Tables (the hashes), Save (_SaveTemplate), Handle (_HandleData)
--             and Packet (_InsertFlowEntry)
--   Daemon    src/netflow.c (AddFlowData) and the loop of main in src/flowstatd.c over packets
--   Report    src/command.c: GetByIP, GetByFlow, GetByTopN, over the table that Flow keeps
--   Whitelist src/flowstatd.c (LoadWhitelist): the array that Report reads
--   Loop      src/flowstatd.c, the loop of main over its two sockets: each iteration asks Select, and gives
--             packets to Daemon and clients to a forked process
--   Process   the loop with the signals: Update, and Exits and SockExit of src/socket.c, as steps of the
--             process from one iteration to the next; Fatal says which steps end in Diep or exit
--   Handlers  src/netflow.c (NetflowHandlerInit, NetflowHandlerUnInit, AddFlowData) and the handler objects
--             of both versions, on a heap, with the calls through their pointers
--   Select    src/multiplex.c, the implementation over select
--   Kqueue    src/multiplex.c, the implementation over kqueue, which flowstatd.h turns off
--   Socket    src/socket.c: bigsockbuf and SendBufToSock; Build is BuildUDPSock and BuildTCPSock
--   Records   src/flowstatd.c (ExportRecord, ImportRecord): the counters in a file. Bytes and Layout are
--             the bytes of the two structures, Codec and Overlay what is read back of them, Limit the
--             lengths that zlib takes, and Lost a table that is longer
--   FileName  the names of these files, in src/flowstatd.c (ExportRecord, main) and src/command.c (parseCmd)
--   Config    src/flowstatd.c (LoadConfig): the networks, the ports and the rest of the configuration;
--             Strings is what it uses of strtok and strtoul
--   Start     src/flowstatd.c (main up to its loop): LoadConfig, LoadWhitelist, the table, and
--             ImportRecord of the day so far, which give the state that the Daemon's loop begins with
--   Update    src/flowstatd.c (Update): what SIGHUP does; Restart starts a daemon with the file it wrote
--   Command   src/command.c (parseCmd), which answers by Report, over the counters of today or over those
--             that Records reads; Receive is the loop of main that collects a command
--   Base      what they share: arrays as lists, words, bits, reads of a buffer, and runs
--   Tests     runs on small data
--
-- State. The global variables `rcvNetList`, `myNetwork`, `localtm` and `ipTable` are the record
-- `FlowState`; nSubnet and sumIpCount are the lengths of its lists. `V9State` adds the two tables of the
-- v9 handler, and `Daemon` preHour and the tables
-- that ExportRecord is given at midnight. Addresses are `in_addr_t` as the
-- program holds them on a little-endian machine, in network byte order.
--
-- Ends of a run. A function that may leave an array, or shift by the width of a word, returns a `Run`:
-- a value, `undefined`, or `out_of_fuel`. Wrap-around of unsigned numbers is written with `%`.
--
-- Fuel. The binary search is given the number of subnets plus one, since each round narrows its range,
-- and the whitelist loop 51, since each round raises its index towards 50. The loops of the v9 handler
-- and of the socket functions have their fuel as an argument, bounded in the statements below.
--
-- Parameters: localtime_r and the width of time_t (`Platform`), qsort (`Qsort`, an ordered
-- permutation, and `SubnetSort`), the value of an uninitialised variable (`stale`, `Memory`), what
-- realloc finds and leaves in new cells (`Memory`), padding bytes, inet_addr, stat and InitLogger
-- (`System`), whether malloc has room for the handlers, the values that jansson finds under a key,
-- the file that belongs to the date that strptime reads (`Server`), whether the sockets and the
-- multiplexer can be set up (`Boot`), select, kqueue, kevent, socket, setsockopt, bind, listen,
-- recvfrom, accept, recv and send, and the text that stands at an address (`Server`), since command.c
-- takes the first bytes of secretKey for a pointer. zlib's stream is the list of the bytes that were
-- written to it; gzwrite and gzread take their length as a 32-bit number, and move nothing if it is above
-- INT_MAX (`gz_length`), which is so for a table of more than 5,162,220 entries.
--
-- Time. ConvertNfTime reads a `struct fttime` through a pointer to time_t: the time that localtime_r gets
-- is the second of the flow where time_t has four bytes, and has the milliseconds in its upper half where
-- it has eight (`read_time`). What is said of the hour and the day of a flow is said of what localtime_r
-- gives for that time.
--
-- Whitelist. LoadWhitelist leaves a free cell behind each address that it stores, and the queries stop at
-- the first free cell (`listed`): what is said of answers is said of the entries before it.
--
-- Not modelled: a signal in the middle of an iteration; getopt; JSON text, logging and
-- compression, which are other libraries' work; the text of an answer, of which the model has the
-- code and the data; the allocation of the multiplexer; a file that cannot be opened for writing,
-- at which ExportRecord ends the process. Whether a call blocks is not told: the results of
-- recvfrom and accept are given, and Loop says which of them is called. A query runs in a forked
-- child, so the order that its qsort leaves in ipTable is not seen again.
pub mod Base
pub mod Subnet
pub mod Lookup
pub mod Clock
pub mod Flow
pub mod V5
pub mod V9
pub mod Report
pub mod Whitelist
pub mod Select
pub mod Socket
pub mod Daemon
pub mod Records
pub mod Config
pub mod Start
pub mod Command
pub mod Update
pub mod Kqueue
pub mod Loop
pub mod Process
pub mod Handlers
pub mod FileName
mod Tests
