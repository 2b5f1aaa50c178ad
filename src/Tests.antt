-- ===== src/Tests.antt =====
-- The theorems at concrete inputs, and runs of the model on inputs that can be followed in the source.
mod Coding
mod Samples
mod Messages
mod Graphs
mod GraphOrders
mod ConsensusTests
mod MemberFiles
mod MemberTests
mod PendingTests
mod TokenTests
mod NameTests
mod TaskTests
mod TranscriptTests
mod RoutingTests
