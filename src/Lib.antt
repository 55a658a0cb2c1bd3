-- ===== src/Lib.antt =====
-- gyzor is a client of the pyzor network: it computes a digest of a mail message, asks servers over
-- UDP how often that digest was reported or whitelisted, and reports and revokes digests.
--
-- Parts of the program, and the files that model them. A path is from the repository's root.
--
-- * pyzor/digest.go. The walk through a message's parts (`digestPayloads`, `walkPart`, `Compute`:
--   Digest/Mime), the decoding of a part (`decodeCTE`, `decodeCharset`: Digest/Decode;
--   `normalizeHTMLPart`: Digest/Html), and what is done with a payload: it is cut into lines
--   (`splitLines`: Digest/Lines), each line is normalised (`normalize` with `removeLongRuns` and
--   `removePyWhitespace`: Digest/Normalize, Digest/Runs, Digest/Whitespace, with the predicates of
--   Digest/Space), short lines are left out and what is left, or two windows of it, is hashed
--   (`shouldHandleLine`, `handleLine`, `rstrip`, `Compute` behind the walk: Digest/Select). Texts are
--   lists of bytes and need not be valid UTF-8. A function's proofs stand in the modules below it.
-- * pyzor/account.go. Accounts, `hashKey`, `signMsg`, `keyFromHexStr`, `deriveKey`, `GenKey`
--   (Account/Keys).
-- * pyzor/message.go. Requests with their signature (Message/Request), replies with their parser and
--   the checks on them (Message/Response, proofs in Message/Checks), and what a parser finds in a
--   serialised request (Message/RoundTrip, Message/Delivered).
-- * pyzor/client.go. Servers and the result of one (Client/Server), the query of one server with the
--   address cache (`resolve`, `invalidateAddr`, `account`, `query`: Client/Query), the queries of all
--   servers (`queryAll`: Client/Fanout) and the verdict over them (`CheckDigest`, `Hit`, `AllOK`,
--   `broadcast`: Client/Verdict), and the checks and reports of messages (`Check`, `Report`,
--   `Whitelist`, `Ping`: Client/Api, with what a verdict rests on in Client/Api/Confirmed).
-- * The files of servers and accounts: `accountLine`, `accountAddrOfLine`, `SaveAccount` (Account/File),
--   `writeFileAtomic` as steps on the disk (Account/Atomic), and `LoadServers`, `LoadAccounts`
--   (Client/Files, with the round trips below it).
-- * cmd/gyzor/serve.go and cmd/gyzor/metrics.go, with `readCapped` of cmd/gyzor/main.go. `auth`,
--   `readBody` and the handlers of check, report and revoke (Serve/Handlers, with the verdict of a
--   check in Serve/Rejected); `safetyCheck`, `isLoopbackListen` and the set-up of `runServe`
--   (Serve/Setup); its gate on requests in flight, as steps that interleave in any order (Serve/Gate);
--   the routes with the wrappers of each handler, for one request at a time (Serve/Routes); the
--   histogram and the text of /metrics (Serve/Latency).
-- * cmd/gyzor/main.go and cmd/gyzor/register.go, with `New` of pyzor/client.go. The defaults from the
--   environment (Cli/Env), the options, the account and the client that they give (Cli/Options), and
--   `run` with its commands (Cli/Run). Proofs: which account signs (Cli/Identity), which servers are
--   asked (Cli/Named, Cli/Addresses, on net.SplitHostPort of Go/Net), what the exit status says
--   (Cli/Status, Cli/Usage), and on what it rests where the client is put behind the command (Cli/Wired).
--
-- The digest goes into a request, the account signs it, the client sends it and parses, checks and
-- tallies the replies. Go's own packages, as far as the code relies on them, are under Go: decoding of
-- UTF-8 (Go/Utf8), lines of a bufio.Scanner (Go/Scanner), strings.* on bytes (Go/Strings, Go/Case),
-- strconv (Go/Numbers), base64 (Go/Base64), SHA1 and hexadecimal text (Go/Sha1), maps (Go/Maps) and
-- the replacement of all matches of a pattern (Go/Regexp). Prelude holds the library names, the
-- Boolean tests, lists over native numbers, byte strings and integers.
--
-- State and effects. The address cache is passed in and out. What the network does in a query is a
-- record of functions (`Net`): the resolver's answer, whether the socket opens, whether it takes the
-- packet, and the datagram that comes back. The goroutines of `queryAll` are a step relation over the
-- loop, the goroutines, the semaphore, the wait group and the slice of results; its steps interleave
-- in any order, and what each query gives is an argument. The clock and the random thread are
-- arguments. An error is a constructor (`Invalid`, `QueryError`, `NumError`, `SaveError`). The lower
-- case of runes beyond ASCII is the argument `lower`, which stands for unicode.ToLower. What net/mail,
-- mime, mime/multipart, mime/quotedprintable, x/net/html and its charset tables give is the record
-- `Mime`. The parser of flags, the operating system and what the client answers to a command are the
-- records `Env` and `World`; what a command writes to stdout is kept, as lines, with the info log of
-- serve where that goes there, and so is the accounts file that register writes. The listeners that
-- the daemon may open and the lines of its access log are the record `System`, its floating-point
-- numbers `Floats`. That the mail packages cut a message into shorter parts is the hypothesis
-- `IsShrinking`.
--
-- Bounds and fuel. `int` is 64 bits wide: `Atoi` reports what does not fit and clamps it, and nothing
-- that is modelled adds to an `int` without a bound. Printing a number n in decimal has the fuel n + 1,
-- which is more than its digits. The walk through a message has the message's length + 1 as its fuel,
-- which is more than parts can be nested where each is shorter than what it stands in. SHA1 keeps its
-- arithmetic modulo 2 ^ 32 written out, and runs over as many blocks as the padded message has. All
-- other loops are structural.
--
-- Not modelled: the logging (pyzor/client.go) and the messages on stderr; the mode of the files
-- (pyzor/account.go); net/http with its timeouts (cmd/gyzor/serve.go).
pub mod Prelude
pub mod Go
pub mod Digest
pub mod Account
pub mod Message
pub mod Client
pub mod Serve
pub mod Cli
pub mod Tests
