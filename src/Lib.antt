-- ===== src/Lib.antt =====
-- Verification library of the social network service, an HTTP service in C++ over PostgreSQL. The
-- requests are served by the workers of a thread pool; a handler takes a connection to a master or a
-- replica from the connection pool for as long as a scoped object lives. The helpers read and print
-- URLs, addresses and numbers. The configuration comes from the environment and the command line, is
-- checked against the network, and gives the connection pool its nodes and the server its threads.
--
-- Parts and files:
--   Prelude        shared names: Boolean tests, lists over the native numbers, byte strings.
--   App            service/sources/app.cpp and service/include/app_metrics.h. The state is the pool,
--                  the metrics and the database. A handler is a function of a request that returns or
--                  throws (`Handled`); its `try` block runs with a scoped connection
--                  (`with_connection`) and ends in one of three ways (`Tried`). Handlers has one file
--                  for each, and Effects, Tokens and Registered what they do; Endpoints has the
--                  routes with their counters, Databases `db_start`, Uuids the check of an id. The
--                  JSON library, bcrypt and the database are the records `Libraries` and `Sql`.
--   Configuration  service/sources/configuration/configuration_data.cpp: `validate`; Sources is
--                  `apply_` of configuration.cpp. Network and services are parameters. The environment
--                  variables, the range and the default of the queue are those of the code; the
--                  table of README.md names others.
--   DnsAddress     service/sources/helpers/dns_address.cpp over the lookups of the C library.
--   Environment    service/sources/helpers/environment.cpp.
--   FilePath       service/sources/helpers/filepath.cpp: the path, System (the file system as a record
--                  and the questions about a path), Permissions, Operations (link, copy, move, remove,
--                  create), Listing. `std::filesystem` and `stat` answer through `Filesystem`, whose
--                  state a change hands on; Names, Writing and Entries hold lemmas.
--   Logger         service/sources/logger and service/include/logger: levels, lines, factory; File is
--                  the logger that opens its file again, over a file system and a clock that are
--                  parameters.
--   ConnectionPool service/include/app_connection_pool.h. The state is the nodes of both types with
--                  their queues, and the two static round-robin counters. `get_connection` and
--                  `release_connection` are functions on it, and `Step` and `Reach` are the
--                  interleavings of the constructor and destructor of `ScopedConnection`. Opening a
--                  connection is the parameter `connect`.
--   ThreadPool     service/include/helpers/thread_pool.h, service/sources/helpers/thread_pool.cpp,
--                  and `ThreadPoolAdaptor` of service/include/app.h. `add_task`, `run_worker` (one
--                  passage of a worker through `run`) and `stop` (the destructor) are functions on
--                  the state, and `Step` and `Reach` are their interleavings. `calls` records the
--                  callbacks that were made.
--   Url            service/sources/helpers/url.cpp and service/include/helpers/url.h: Model (the
--                  data), Codec (`encode`, `decode`), Query, Path (`normalize`), Parser, Printer. An
--                  exception is a value that holds the object as it was left. RoundTrip has the lemmas
--                  on what is printed and read back.
--   IpAddress      service/sources/helpers/ip_address.cpp: the members on bytes, Classes (`is_...`),
--                  Text (`try_parse`, `to_string`), Mapped (IPv4 in IPv6). `inet_pton` is a parameter.
--   SocketAddress  service/sources/helpers/socket_address.cpp: the `init` members, the split of a text
--                  into host and port, Compare, and what is read back. The name lookup is a
--                  parameter.
--   StringHelpers  service/sources/helpers/string.cpp.
--   NumberParser   service/sources/helpers/number_parser.cpp, with what it uses of `std::stoull` and
--                  its kin.
--   Format         what `std::format` prints of a number.
--
-- A byte is a number below 256, and a text is the list of its bytes. The host is little-endian, `int`
-- has 32 bits and `long` 64; the locale is the C locale. The counters of the thread pool and the
-- conversions of numbers keep their wrap-around. A member that holds a mutex is one step.
--
-- Loops on fuel: `replace_loop` and `replace_char_loop` have one round for each byte and one more,
-- since each round moves behind a byte; `replace_while` has as many, since each round makes the text
-- shorter; `query_parameters_loop` has as many, since each round reads at least one byte.
-- `count_double` has as many too and moves by two bytes. `fill_loop` has
-- one round for each buffer that is tried; how many are enough depends on the answers of the system.
--
-- Not modelled: the declaration of the options of the command line, the start of the HTTP server and
-- its loop, which call cxxopts, httplib and prometheus; the text of a time stamp, signals, threads of
-- the system and random numbers; conversions to floating point; `self`, `current_dir` and `temp_dir`
-- of a file path, which only ask the system. A library outside the repository is a parameter where
-- its answer matters, and left out where it is only called.
pub mod Prelude
pub mod StringHelpers
pub mod Logger
pub mod NumberParser
pub mod DnsAddress
pub mod FilePath
pub mod Format
pub mod Url
pub mod ConnectionPool
pub mod IpAddress
pub mod SocketAddress
pub mod ThreadPool
pub mod App
pub mod Environment
pub mod Configuration
