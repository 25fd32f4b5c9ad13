-- ===== src/Types.antt =====
-- Value types of src/logicblocks/event/types: JSON values, serialisation, identifiers and events.
pub mod Json
pub mod Conversion
pub mod Identifier
pub mod Event
pub mod Projection
