-- ===== src/Memory/Validity.antt =====
-- valid_t of tools/utils/MemoryMap.hxx: how many of some bytes are valid.
pub data Validity : Type 0 where
  none some all : Validity
