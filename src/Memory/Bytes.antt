-- ===== src/Memory/Bytes.antt =====
-- Bytes of physical memory: the words of a frame are little-endian.
use ferri_os.Base.{ℕ, zero, suc, ◌+◌, ◌-◌, ◌*◌, ◌/◌, ◌%◌, ◌^◌, List, [], ◌∷◌}
use ferri_os.Memory.Frames.{Memory, write_entry}

-- Byte `k` of a word, and the word with that byte replaced.
abbrev pub byte_of : ℕ → ℕ → ℕ
byte_of w k = w / 256 ^ k % 256

abbrev pub put_byte : ℕ → ℕ → ℕ → ℕ
put_byte w k v = w - byte_of w k * 256 ^ k + v * 256 ^ k

abbrev pub read_byte : ℕ → ℕ → Memory → ℕ
read_byte f offset m = byte_of (m.tables f (offset / 8)) (offset % 8)

unfoldable pub write_byte : ℕ → ℕ → ℕ → Memory → Memory
write_byte f offset v m =
    write_entry f (offset / 8) (put_byte (m.tables f (offset / 8)) (offset % 8) v) m

-- `from_raw_parts` on bytes of a frame.
unfoldable pub read_bytes : ℕ → ℕ → ℕ → Memory → List ℕ
read_bytes f offset zero m = []
read_bytes f offset (suc n) m = read_byte f offset m ∷ read_bytes f (suc offset) n m

-- `copy_nonoverlapping` to a frame.
unfoldable pub write_bytes : ℕ → ℕ → List ℕ → Memory → Memory
write_bytes f offset [] m = m
write_bytes f offset (v ∷ vs) m = write_bytes f (suc offset) vs (write_byte f offset v m)
