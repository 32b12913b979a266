-- ===== src/Lib.antt =====
-- AirFi: WiFi access paid for through payment channels on CKB. A guest funds a channel; the backend
-- opens a session on it, sells time for CKBytes, hands out a signed access token, and settles the
-- channel when the session ends.
--
-- Parts, and where each is modelled:
-- Perun/Channel: internal/perun/channel.go, the payment channel. `Channel` has the fields of the Go
--   struct, and `send_payment`, `receive_payment` and `settle` are SendPayment, ReceivePayment and
--   Settle. Perun/Channel/Invariant has the well-formedness of a channel, Payments and Settlement
--   the operations' outcomes, and Runs the sequences of calls.
-- Perun/Client: the client of internal/perun/client.go, with OpenChannel, GetChannel, ListChannels and
--   CloseChannel of channel.go, and NewClient, Connect, Disconnect and GetStats.
-- Perun/Crypto: SignData and VerifySignature of client.go. Perun/Config: internal/perun/config.go.
-- Perun/Cells: internal/perun/cell_splitter.go, which splits a wallet's cells and hands small ones to a
--   guest. Perun/Withdraw: internal/perun/withdraw.go, which sends a guest's remaining CKB back.
-- Auth: internal/auth/jwt.go, the token service.
-- Session/Defs and Session/Store: internal/session/store.go, the sessions in memory, by ID and by
--   channel. Session/Manager: internal/session/manager.go, which uses the store, the token service
--   and the channel client.
-- Perun/ChannelClient: internal/perun/channel_client.go, the client of on-chain channels: ProposeChannel,
--   SendPayment and SettleChannel.
-- Perun/PerunClient: internal/perun/perun_client.go, the client that signs for both parties and calls the
--   chain; Perun/PerunClient/Money is about the balances of its channels.
-- Guest: internal/guest/wallet.go, the guests' wallets; Guest/Bech32 and Guest/Address are its encoding
--   and decoding of addresses, Guest/Bits the regrouping of bits, Guest/Checksum the end of an address,
--   Guest/RoundTrip both ways in turn.
-- Router: internal/router, the OpenWrt client; Router/Mac is the normal form of MAC addresses.
-- Db: internal/db/db.go, the tables of sessions, guest wallets and settings. Db/Rows is the SQL that
--   the statements use, Db/View the map of sessions that the table stands for, Db/Queries what is read
--   back.
-- Backend: cmd/backend. Backend itself is server.go's state; Backend/Sessions and Backend/Settlement are
--   session.go, Backend/Billing its processMicropayments, Backend/Opening is openChannelForSession of
--   channel.go, Backend/Funding wallet.go, and Backend/Handlers handlers_api.go, with the listings and the
--   login in Backend/Handlers/Pages. Backend/Solvency has the requests and rounds as steps of one
--   relation. The backend uses Db, Perun/ChannelClient, Perun/Withdraw and Auth.
--   Backend/Startup is main.go: what is put together before the server runs.
-- Api: internal/api. Api/Handlers, Api/Views, Api/Wallet, Api/Middleware and Api/Router are handler.go,
--   middleware.go and router.go, over Perun/Client and Session/Manager; Api/PerunHandlers is
--   perun_handler.go, over Perun/PerunClient. Api/Safety has requests in any order, Api/Payments one
--   payment, Api/PerunMoney the balances behind perun_handler.go, Api/Middleware/Header what an
--   Authorization header carries, and Api/Middleware/Outcome the answers behind it.
-- Perun/Wallet and Perun/Bech32: the key, address, balance and assets of client.go; Perun/Wallet/Addresses
--   compares its encoding of addresses with that of internal/guest. Perun/Transfer: transaction.go;
--   Perun/Transfer/Sending is what a transfer sends.
-- Auth/Keys: internal/auth/keys.go, the key files; Auth/Keys/Stable is about loading them again.
-- Config: internal/config; Config/Loaded is what Load gives. Hostcli: the dashboard of cmd/hostcli; Hostcli/Polls
--   is what it knows, and Hostcli/Shortening how much of an address it shows.
-- Session/Store/Listed: each session is listed once. Session/Manager/Cleanup: the loop of the cleanup.
-- Perun/Client/Channels and Session/Manager/Maps: what every operation keeps of the client's map of
--   channels and of the manager's store.
-- Base: shared names, integers (`big.Int` and `int64`), words, bytes, maps, `Sscanf`, and
--   `big.Int`'s SetString in Base/Decimal.
--
-- How the code is rendered. A Go pair of a value and an error is a `Result`; an operation that keeps
-- what it has already changed returns the new state beside its result. A pointer that a map hands
-- out is the key here, and a write through it a write to the map. A mutex makes an operation one
-- step. `time.Now()` is an argument, one reading for each call except where two readings matter
-- (Session.RemainingTime); a fresh UUID is an argument too, and so is whether a context is cancelled
-- while a call waits. `big.Int` is an unbounded integer, and `int64` and `uint64` wrap at their
-- width. Strings that are hashed count as their code points, as ASCII ones are. A map is a list of
-- entries, ranged over in the list's order, whereas Go's order is random. `Duration.Minutes()` is a
-- floating-point number in Go, cut to whole minutes here.
-- What the backend asks of the router and the goroutines that it starts are lists in its state, the
-- latest first; a goroutine runs as an operation of its own. An error that is only logged is left out,
-- as is a failure of SQLite other than a violated key or a missing row.
--
-- Parameters. SHA-256, ECDSA, golang-jwt, ckb-sdk-go, the secp256k1 library and the chain behind the
-- RPC client are records of functions (`Crypto`, `Jwt`, `Node`, `Scripts`, `History`). `Outside` and
-- `Watch` add what the backend reads of them, with the decoding of keys and addresses; whether
-- go-perun completes a call is an argument of it, and SQLite's datetime an argument of the extension.
-- `IsSound` states what golang-jwt documents, and `Grows` that a committed split leaves more cells to
-- count. The wait for a confirmation runs over the turns of its loop, which the chain gives.
-- `Machine` is what main asks of libraries and the machine, `Host` the standard library's keys and files, whose `IsSound` states that
-- what is encoded decodes to itself; `KeyLib` and `Chain` are the SDK behind the wallet.
--
-- Fuel. The bytes of a number are taken out with the number itself as fuel, which is never less than
-- its digits. The loop of EnsureMinimumCells runs on fuel equal to the wanted number of cells: each
-- committed split adds one. A request lists at most 100 cells, so that more cannot be asked for.
-- The backend's rounds need no fuel: each goes once over a list. The start of the backend prepares three
-- cells on fuel three.
--
-- Not modelled: HTML pages and static files, CORS headers, the wiring of gin and of the HTTP server,
-- health checks but one, the connection of perun_client.go, the table of hashes in
-- internal/perun/deployment.go, the host's answers to proposals, which are always yes, and the tools
-- cmd/genkey and scripts and the one-answer commands of cmd/hostcli, which print what libraries and
-- the API give. Logging is left out, and so are the tickers and goroutines that start the
-- backend's rounds.
pub mod Base
pub mod Perun
pub mod Auth
pub mod Session
pub mod Guest
pub mod Router
pub mod Db
pub mod Backend
pub mod Api
pub mod Config
pub mod Hostcli
