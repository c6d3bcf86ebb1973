-- ===== src/Lib.antt =====
-- The netting channels of a payment node, and its part in mediated transfers. Two nodes deposit
-- tokens into a channel and pay each other by exchanging signed balance proofs; a payment is
-- first locked under the hash of a secret, and the lock is later unlocked with the secret, or
-- removed when it has expired. A payment may pass through other nodes: a mediator forwards what
-- it receives, the target asks for the secret, and the initiator reveals it. The node keeps, for
-- each channel, its own side and its view of the partner's side.
--
-- State.antt has the records of src/gatecoin/transfer/state.py, architecture.py, identifiers.py
-- and mediated_transfer/state.py, Event.antt those of the events. Python dicts are association
-- lists in insertion order (Common/Dicts.antt), an exception is a value (Common/Results.antt),
-- and an amount that Python may compute as negative is an integer (Common/Int.antt).
-- Externals.antt is what the node takes from outside: hashes, packing, recovery of signers, the
-- random generator; every definition that uses one takes it as an argument.
--
-- The folder Channel is src/gatecoin/transfer/channel.py. Query.antt has the functions that read
-- a channel, Lock.antt the pending locks and their dicts, Check.antt the checks of received
-- balance proofs, Send.antt the messages about locks that the node sends, Receive.antt the
-- handlers of those that it receives, Secret.antt the registering of secrets, Usable.antt the
-- test that a new transfer may use the channel. WithdrawCheck.antt has the checks of withdraws
-- and cooperative settles, Withdraw.antt their requests and their expiry, WithdrawHandle.antt
-- their handlers, Onchain.antt the handlers of blocks and of what happens on chain,
-- Transition.antt the dispatch and the sanity check that follows it. A definition has the name of
-- the Python function, without a leading underscore; a call that changes the channel in place
-- returns the changed channel.
--
-- The proofs: Balance.antt is about balances, Index.antt about the dicts that index the locks,
-- Invariant.antt has the invariant of a channel, Check/Sound.antt and Check/Accepts.antt say what
-- the checks accept, Send/Sound.antt, Send/Release.antt, Receive/Sound.antt, Secret/Moves.antt,
-- Secret/Sound.antt and Secret/Recorded.antt are about the operations and the invariant,
-- Agreement.antt puts two nodes together. Sanity.antt, Deposit.antt, Closing.antt,
-- WithdrawCover.antt and SettleRequest.antt are about the sanity check, deposits, the closing of
-- a channel, the cover of withdraws and the requests that belong to a cooperative settle;
-- Tests.antt, Tests/Chain.antt and Tests/Checks.antt have concrete channels. A channel is sound
-- when each lock is found by its own secrethash in one dict at most and is among the pending
-- locks, when the last balance proof of each side has the locksroot and the amount of its pending
-- locks, and when each side's locked, withdrawn and transferred amounts are covered by its
-- deposit and what it received.
--
-- The folder Mediated is src/gatecoin/transfer/mediated_transfer. Waiting.antt has what its state
-- machines share, with secret_registry.py; Channels.antt the store of channels, which
-- channelidentifiers_to_channels and addresses_to_channel refer into, so that two names of one
-- channel see the same changes. Target.antt is target.py, with the dispatch in
-- Target/Transition.antt. Mediator.antt has the state of mediator.py and the functions that read
-- it, with the folder below it: Mediator/Forward.antt forwards transfers (with routes.py),
-- Mediator/Secrets.antt sets and reveals secrets and pays, Mediator/Onchain.antt registers them
-- on chain, Mediator/Expiry.antt gives locks up, Mediator/Handle.antt, Mediator/Receive.antt and
-- Mediator/Transition.antt are the handlers and the dispatch. A handler returns the task, the
-- channels, the random generator and the events. What mediation leaves of an amount after fees is
-- an argument. Initiator.antt is the state of a transfer in initiator.py and its blocks, with the
-- request and the reveals of a secret in Initiator/Transition.antt and the choice of a route in
-- Initiator/Route.antt, which takes the arithmetic of floats as an argument. Message.antt is the
-- class Lock of messages/transfers.py.
--
-- Of these, Target/Sound.antt, Target/Steps.antt and Target/Blocks.antt are about the target's
-- channel, its transition and its blocks; Mediator/Sound.antt, Mediator/Released.antt,
-- Mediator/Received.antt, Mediator/Forwarded.antt, Mediator/Handled.antt and Mediator/Steps.antt
-- about the soundness of the mediator's channels (with Channel/Send/Partial.antt, on sending
-- calls that return), Mediator/Registered.antt and Mediator/BlockEvents.antt about registering on
-- chain, Mediator/Payment.antt about paying and forwarding, Mediator/Finalized.antt about the end
-- of a task, Mediator/Faults.antt about unexpected changes; Initiator/Run.antt and
-- Initiator/Sound.antt are about runs of a transfer, Initiator/Started.antt about its start;
-- Tests.antt, MediatorTests.antt and InitiatorTests.antt have concrete tasks.
--
-- No definition takes fuel: each loop runs through a list. Not modelled: the Python types and the
-- lengths of byte strings (hashes, addresses and secrets are the numbers that their bytes spell),
-- the text of error messages, logging, the copying of states, the imbalance fees, which are
-- computed with floats, the fee functions over fractions in mediation_fee.py with
-- get_amount_without_fees of mediator.py, the payments of initiator_manager.py, and everything
-- outside the channels and the tasks of targets, mediators and initiators: the dispatch in
-- node.py, transport, storage, services.
pub mod Common
pub mod Externals
pub mod State
pub mod Event
pub mod Channel
pub mod Mediated
pub mod Message
