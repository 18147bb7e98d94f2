-- ===== src/Pack.antt =====
-- Packing (lib/common/Serialize.hpp, lib/common/BinaryPack.hpp): OutputArchive writes the fields of a
-- struct one after another, and InputArchive reads them back. A string is a list of bytes.
pub mod Bytes
pub mod Archive
pub mod Containers
