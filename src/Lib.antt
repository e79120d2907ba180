-- ===== src/Lib.antt =====
-- obelisk_asio_coro: a web framework on Asio coroutines. Its parts are a query builder with the
-- statements that it compiles for MySQL (include/obelisk/database/builder and
-- source/database/builder), the HTTP side (include/obelisk/http, source/http), which reads a message
-- from a socket, parses its header, finds the route for it and serialises the answer, and the coroutine helpers
-- (include/obelisk/core/coroutine). A handler builds statements, the statements go to a connection of
-- the pool as text, and the answer goes back through the HTTP side.
--
-- Base: what the modules share. Texts are lists of bytes, `Bytes`, and numbers are native.
-- Sql.Syntax, Sql.Compile, Sql.Query: the statement parts as data and their `compile()`. A builder
--   call is a function from the statement to the statement: Sql.Where for the conditions
--   (`where`, `or_where`, `global_where`), Sql.Statement for queries, inserts, updates and deletes.
--   `Env` carries what the code takes from elsewhere: the configured table prefix, the standard
--   library's formatting of doubles and times, and Boost's `contains` and `replace_all`. A sub-query
--   stands for the query that its builder leaves.
-- Sql.Where.Expr: the texts of AND and OR expressions with parentheses, AND closer than OR, and their
--   truth; Sql.Where.Meaning, Sql.Where.Calls: a clause against them. Sql.Separate: column names.
--   Sql.Guards: sub-queries, counts and the guards of the statements. Sql.Insert: rows and columns.
-- Http.Header: `parser_v3::parse_http_header2` (source/http/parser_v2/http_parser_v3.cpp) with the
--   texts of http_response.cpp and of `base_client::make_iodata_` (source/core/http_client.cpp). The
--   equality of header keys and Boost's `split` are parameters. The fuel of the parser is one more
--   than the length of the text behind the first line.
-- Http.Io: `receive_header_` and `receive_body_` (include/obelisk/http/core/io.h) over an interface
--   `Socket`, whose laws say what a completed read of Asio transfers. The counters of `receive_body_`
--   wrap at 2^32. Every turn of a loop takes one unit of fuel: more than the block of 10240 bytes is
--   enough for a header, and more than the content length for a body.
-- Http.Io.Chunked, Http.Io.Message: `receive_chunked_body_` with the two `receive_until_`, and the
--   choice of `receive_body_` between the framings. The stream that is written is an interface, since
--   Boost's decompressor may stand in it. The fuel is given apart for the turns of one read, where more
--   than a block is enough, and for the chunks. Http.Numeral: `stoull`, `strtoull` and `strtoll`.
-- Http.Json, Http.Request, Http.Response: the values of nlohmann::json, `http_request_wrapper`
--   (source/http/core/http_request.cpp), and the responses (source/http/core/http_response.cpp,
--   source/http/response). What `dump()` writes is a parameter.
-- Http.Client: what `perform_request_` (include/obelisk/http/core/base_client.h) reads of a response.
-- Http.Router: the parts of a route, the text of its regex and `route_param::extract`
--   (source/http/router). `std::regex` is a parameter; Http.Router.Ecma names what its grammar documents
--   of groups of plain text, `(.*)` and `([^/]*)`, which asks for names of static parts without the signs
--   of a regex.
-- Http.Server, Http.Server.Dispatch: one round of `handle_` (source/http/http_server.cpp) for a request
--   that was read. Handlers and middlewares are functions on the request; a run keeps its calls. The
--   map of methods is a list in the order in which it is iterated.
-- Http.Server.Connection: the loop of `handle_` over the messages of a connection, for a number of
--   rounds. The exceptions that a body gives and what stands in memory behind the buffer are
--   parameters. Http.Server.Connection.Pipeline: requests of the client behind each other.
-- Http.Multipart: `parse_boundary` and `parse_multipart_body` of
--   source/http/parser_v2/http_parser_v3.cpp and the middleware multipart_extract. Stream: the body as
--   a text with a position and the bits eof and fail; Upload: the loop that copies a file; Meta: the
--   grammars in Boost.Spirit; Body: the parts; Extract: the middleware; Form: a form as it is sent. The
--   disk is a list of files. White space, the uuid, the extension of a file name and the texts of
--   exceptions are parameters. A file takes no more turns than the body has bytes, unless its end is
--   missing; the grammars and the parts are given one turn more than the text is long.
-- Http.Params: `parse_urlencoded_param` (source/http/parser_v2/http_parser_v3.cpp) and the middlewares
--   for a query, a form and a JSON body (source/http/middleware).
-- Http.Validator: the validators (source/http/validator, include/obelisk/http/validator), each a
--   function on the request.
-- Http.Stream: the row of streams that a message is sent from (include/obelisk/http/core/io_data.h,
--   source/core/http_iodata.cpp). Its `read` takes one turn for each stream, and its fuel is one more
--   than the number of streams, which is enough unless a stream has failed without an end. Http.Stream.Write is `write_data_` over an interface `Sink`; its
--   outer loop is given more fuel than there are bytes to send.
-- Http.Signer: `sign_request` of include/obelisk/http/client/signer/aliyun_openapi.h, with the digests,
--   the clock and the encoding of a value as parameters. Http.Signer.Oss: `sign_request` of
--   aliyun_oss.h; Http.Signer.Headers: the map of headers in another order.
--   Http.Signer.Digest: the digest of a body, fed block by block, for which two turns more than the
--   body has bytes are enough, and the reading of the row of streams that is sent afterwards.
-- Coroutine.Mutex: `async_mutex` (include/obelisk/core/coroutine/async_mutex.h) as a step relation on
--   the mutex and the coroutines that use it. What runs on its strand between two suspensions is one
--   step, and only a coroutine that has the mutex calls `unlock`.
-- Database.Pool: the pool of include/obelisk/database/connection_pool/connection_pool.h as a step
--   relation; a connection is a number, and what its constructor does is the result of the maker.
-- Database.Blueprint, Database.Blueprint.Table: the columns and tables of a migration
--   (include/obelisk/database/migration) with the commands that they give. A reference that a call
--   gives back for chaining is a function that the call takes.
-- Database.Session: `co_query`, `table_bp` (source/database/migration/migration.cpp) and
--   `db::transaction` (include/obelisk/database/db.h) on one connection. What the server makes of a
--   text is a parameter; Database.Session.Transaction names what MySQL documents of the statements
--   that a transaction sends. Database.Session.Migrate: `db::run_migration`, over the rows that a query
--   gives; Database.Session.Once names what MySQL documents of the statements on the table of
--   migrations.
--
-- Not modelled: the driver of MySQL, TLS, the file streams that a large body is written to, the text of
-- JSON, the accept loop of the server, the logger and the configuration file, where the sources mostly
-- call other code; and the registry of pools, the filesystem and the validators that ask the database.
pub mod Base
pub mod Sql
pub mod Http
pub mod Coroutine
pub mod Database
