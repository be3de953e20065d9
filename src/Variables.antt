-- ===== src/Variables.antt =====
-- src/variables: the formats of channel variables.
pub mod EslArray
pub mod Multipart
