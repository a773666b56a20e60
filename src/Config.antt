-- ===== src/Config.antt =====
-- virtwho/config.py: reading, holding and validating the configuration.
pub mod ParseList
pub mod Quotes
pub mod Value
pub mod Section
pub mod Methods
pub mod Virt
pub mod Global
pub mod Effective
pub mod Files
pub mod Mapper
pub mod Tests
