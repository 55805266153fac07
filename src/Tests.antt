-- ===== src/Tests.antt =====
-- The theorems at concrete inputs, and runs of the definitions.
mod Memory
mod StoreTests
mod Scripts
mod RefreshTests
mod RunTests
mod RuntimeTests
mod SchedulerTests
mod ServerTests
mod BrowseTests
mod ConfigTests
mod NotifyTests
mod TlsClientTests
mod AssemblyTests
mod LoggingTests
mod LogTests
mod LoadingTests
