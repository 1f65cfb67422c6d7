-- ===== src/Autostop.antt =====
-- The autostop plugin of yandextank/plugins/Autostop: a module for each criterion class.
pub mod Sample
pub mod Streak
pub mod AvgTime
pub mod HttpCodes
pub mod NetCodes
pub mod Quantile
pub mod TimeLimit
pub mod UsedInstances
pub mod WindowCounter
pub mod FracTime
pub mod Window
pub mod TotalHttp
pub mod TotalNet
pub mod NegativeHttp
pub mod NegativeNet
pub mod HttpTrend
pub mod Criterion
pub mod Plugin
mod Samples
mod Tests
mod PluginTests
