-- ===== src/Conversions.antt =====
-- etl/src/conversions: values, and their decoding from the texts that Postgres sends.
pub mod Cell
pub mod Numbers
pub mod Hex
pub mod ArrayText
pub mod TextFormat
pub mod TableRow
pub mod Protocol
pub mod Event
pub mod Encode
