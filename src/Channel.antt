-- ===== src/Channel.antt =====
-- A netting channel between this node and a partner: src/gatecoin/transfer/channel.py.
pub mod Query
pub mod Balance
pub mod Lock
pub mod Check
pub mod Send
pub mod Receive
pub mod Index
pub mod Invariant
pub mod Secret
pub mod Agreement
pub mod Tests
pub mod WithdrawCheck
pub mod Withdraw
pub mod WithdrawHandle
pub mod Onchain
pub mod Transition
pub mod Usable
pub mod Sanity
pub mod Deposit
pub mod Closing
pub mod WithdrawCover
pub mod SettleRequest
