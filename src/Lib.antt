-- ===== src/Lib.antt =====
-- agent-tunnel lets an app on a phone drive agent sessions on the user's own machines. A relay
-- knows which apps, daemons and sessions are connected; it introduces an app to a daemon, so that
-- the two reach each other directly, and where they cannot it joins them by a relay tunnel. This
-- library models the parts that decide who is joined to whom, and the frames that travel between
-- them.
--
-- The parts, and the files that model them:
--
-- Base (children Tests, Lists, Dict, Text, Decimal, Bits, Xor, Bytes, Hex, Utf8, Int, Peer, Sort,
-- Entries): what the parts share. Go's maps are association lists with lookup, insert and delete
-- (Dict, Entries); strings are lists of code points, with strings.TrimSpace, strings.ToLower and
-- the decimal form that fmt prints (Text, Decimal); a connection is an identity that can be
-- compared, or nil (Peer). Xor is the exclusive or of two numbers; Bytes, Hex and Utf8 have
-- encoding/binary, encoding/hex and the bytes of a string.
--
-- Frame (internal/connectivity/frame/frame.go): `encode`, `decode`, `read` and `write` are Encode,
-- Decode, Read and Write. A byte is a number below 256; the machine words of the prefix are written
-- out (% 2 ^ w and the masks). An io.Reader is the bytes that it still gives and what it says after
-- them. Frame/Varint, Frame/Prefix, Frame/RoundTrip and Frame/Reader hold the proofs.
--
-- Throttle (internal/relay/handler/api/throttle.go): Allow, RecordFailure and Reset of the throttle
-- of registrations, with the clock as an argument.
--
-- Session (internal/relay/session/registry.go): the agent sessions that are connected to the relay.
-- Each method of Registry is a function of the same name, from the registry to the new one, its
-- result and what it did to the connections.
--
-- Connectivity (internal/relay/connectivity/registry.go, with the frames of
-- internal/protocol/connectivity.go): the registry of apps and daemons. Connectivity.antt has the
-- state; its children have the methods: Apps, Daemons, Pairing and Revocation (connections, trust
-- and their end), Requests, Tunnels and Redeem (relay tunnels and their tokens), Rendezvous, Direct
-- and Candidates (the direct path), and what they share: Frames, Keys, Limits, Access, Removal.
-- Tunnels/ has the proofs about tunnels: Tokens and Invariant (how attempts and tokens belong
-- together), Lifecycle and Redemption (the operations), Admission, Capacity, SingleUse, Liveness,
-- Granted. Access/Visibility, Limits/Window, Pairing/Reservation and Revocation/Sessions have those
-- about what an app sees, the log of the requests, the reservations and the end of access.
--
-- Connectivity/Machine puts the methods together: the registry's mutex makes each critical section
-- one step, and a method that sends a message between two of them is two steps, with any others in
-- between. Untouched, Invariant and Connections go through the steps for the tunnels, Safety has
-- what follows for the reachable registries; Lacking, Departures and SpentTokens go through them
-- for a token that has been used up, Books for what is remembered of revocations and requests,
-- Keyed for the daemons. Cutoff, UserCutoff, RequestLimit and Authorization have what follows for
-- sessions and users that were disconnected, for the limit of requests, and for who gets a tunnel.
--
-- Device (internal/relay/device/registry.go, with the frames of internal/protocol/device.go in
-- Device/Frames): the computers that are connected, and the launches and terminations that wait for
-- their answers. Clock has the ids of the requests, Requests the requests and how they leave the
-- registry, Connections the devices, Launch and Terminate the two kinds of request, each cut into
-- the critical sections of its method. Machine makes every critical section a step. InFlight says
-- what it is that a registry is in order, Offline and Steps go through the methods for it, Ids
-- shows that the id of a launch names its device. Takeover, Ownership and Orders are about lost
-- connections, about who may speak for whom, and about the two orders in which a launch can end.
-- Lifecycle is an abstract machine of one launch; its children show that the registry, seen at one
-- id, is that machine.
--
-- Stun (internal/connectivity/stun/server.go): the messages by which a peer learns its public
-- address. The functions have the names of the code; errInvalidMessage is none. Values has the
-- proofs about the value of the address attribute, RoundTrip those about whole messages.
--
-- Pairing (internal/connectivity/pairing): transcript.go in Pairing.antt, sas.go in Sas and
-- invitation.go in Invitation. SHA-256 and Ed25519 are the functions of a record Crypto; the one
-- theorem that needs more of them takes the laws of IsEd25519. Canonical is about the bytes that
-- are signed, Signing about what is signed and then checked, Verified about what a pairing
-- guarantees.
--
-- Trust (internal/tunnel/daemon/pairing_state.go): the file of a daemon with its invitations, the
-- answers that wait and the devices it trusts. Trust.antt has the state, the errors, and how the
-- file is read and written; Operations has the lists of records and ConsumePairInvitation,
-- Completion the answers (CompletePairingResponse, StorePendingPairingResponse,
-- ConfirmPendingPairingResponse), Invitations CreatePairInvitation, and Devices the trusted devices
-- and the two lists that are shown. Time is a number of nanoseconds since 1970, none for the zero
-- time. The file's JSON is the state itself. Spent and Keeping are about invitations that were used
-- up, Steps makes every operation a step, SingleUse and Revoked hold what follows.
--
-- Addresses (internal/connectivity/direct/candidate.go): the private addresses of a machine that
-- are told to a peer. Ip has the tests of net.IP, its String and net.JoinHostPort; a set of strings
-- is a list without duplicates, and Base/Sort is sort.Slice. Sanitized is about the addresses that
-- are chosen.
--
-- How the code corresponds. A method is a function from the registry and its arguments to the new
-- registry, the result and the list of its effects (messages, closed connections, closers, timers)
-- in the order of the code. Where it reads the clock or crypto/rand, or where a callback or
-- SendJSON answers, the answer is an argument. The pointer of an attempt is its `ref`. Times and
-- durations are numbers of nanoseconds; the zero time is 0. Every loop runs over a list and is
-- structural recursion; the functions on fuel are `decimal`, for which the number itself is enough,
-- and `find_address`, for which the length of the attributes is (Stun.RoundTrip.find_address-fuel).
-- A time of day in an id is what time.Format prints of the nanoseconds since 1970.
--
-- Not modelled: sockets, goroutines and timers (a timer's function is a step of the machine, which
-- may come at any time), JSON, validUDPAddr (an argument of the functions that use it), nil
-- closers, and the other components of the repository.
pub mod Base
pub mod Frame
pub mod Throttle
pub mod Session
pub mod Connectivity
pub mod Device
pub mod Stun
pub mod Pairing
pub mod Trust
pub mod Addresses
