-- ===== src/Transformer.antt =====
-- server/meraki_transformer.py. What the dashboard answers is given by records whose fields are the
-- keys that are read; `none` is a null or a key that is not there.
pub mod Links
pub mod Layer2
pub mod Layer3
pub mod Sites
pub mod Mesh
pub mod Health
mod Tests
