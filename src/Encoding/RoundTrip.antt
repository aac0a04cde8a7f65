-- ===== src/Encoding/RoundTrip.antt =====
-- Round trips through the encoded forms, in layers: ids and parts, infos, data, items, facts.
pub mod Parts
pub mod Data
pub mod Hinted
pub mod Facts
