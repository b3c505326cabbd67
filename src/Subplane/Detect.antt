-- ===== src/Subplane/Detect.antt =====
-- internal/subplane/detect.go: which client asks, by its User-Agent or by an explicit choice. The
-- scan for a version, the search for a needle and the choice by them are the children VersionScan,
-- NeedleSearch and Rules; the others hold what is proved of them.
pub mod Ascii
pub mod VersionScan
pub mod NeedleSearch
pub mod Rules
pub mod Digits
pub mod Dotted
pub mod VersionRoundTrip
pub mod Needles
pub mod NeedleLoop
pub mod NeedleRounds
pub mod NeedleTermination
pub mod Choice
pub mod Names
pub mod Precedence
pub mod Offers
mod Tests
