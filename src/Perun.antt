-- ===== src/Perun.antt =====
-- internal/perun: the payment channel and its client, signatures, and on-chain cells.
pub mod Crypto
pub mod Channel
pub mod Client
pub mod Config
mod Tests
pub mod Cells
pub mod Withdraw
pub mod CellTests
pub mod ChannelClient
pub mod PerunClient
pub mod Bech32
pub mod Wallet
pub mod Transfer
