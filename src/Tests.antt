-- ===== src/Tests.antt =====
-- Concrete runs: the data of the tests, and the theorems at inputs that meet their hypotheses.
mod Data
mod WifiFrames
mod WifiSessions
mod WifiLives
mod MuxRuns
mod JniRuns
mod ManagerRuns
mod BleRuns
mod PopRuns
