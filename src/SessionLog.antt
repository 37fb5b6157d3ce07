-- ===== src/SessionLog.antt =====
-- exercises/exitlab/logger.cpp and logger.h: Logger. The buffer is the list of its bytes, and a write out of
-- it is `none`. What `new` leaves in it is a parameter: nothing looks at it.
pub mod Fits
use going_unmanaged.Prelude.{
  ℕ, zero, suc, ◌+◌, ◌-◌, List, [], ◌∷◌, ◌++◌, Option, none, some, if◌then◌else◌, ltb, Bytes,
  length, set, replicate,
}
use going_unmanaged.Strings.Parts.{substr}

-- kCapacity
abbrev pub log_capacity : ℕ
log_capacity = 4096

pub record Logger : Type 0 where
  pub buffer : Bytes
  pub used : ℕ
  pub lines : ℕ

unfoldable pub new_logger : ℕ → Logger
new_logger filler = record { buffer = set (replicate log_capacity filler) 0 0; used = 0; lines = 0 }

unfoldable pub write_bytes : Bytes → ℕ → Bytes → Option Bytes
write_bytes buffer at_byte [] = some buffer
write_bytes buffer at_byte (b ∷ bs) =
    let rest = write_bytes (set buffer at_byte b) (at_byte + 1) bs in
    if ltb at_byte (length buffer) then rest else none

-- What std::snprintf writes of the line into `room` bytes, with the zero behind it.
unfoldable pub printed : ℕ → Bytes → Bytes
unfolding substr
printed room line = substr (room - 1) (line ++ 10 ∷ []) ++ 0 ∷ []

unfoldable pub write_line : Bytes → Logger → Option Logger
unfolding write_bytes printed
write_line line log =
    let written =
      elim (write_bytes log.buffer log.used (printed (log_capacity - log.used) line))
        as (λ r. Option Logger) [
          | none ↦ none
          | some buffer ↦ some (record {
            buffer = buffer;
            used = log.used + (length line + 1);
            lines = log.lines + 1;
          })
        ] in
    if ltb log_capacity (log.used + 256) then some log else written

unfoldable pub write_lines : List Bytes → Logger → Option Logger
unfolding write_line
write_lines [] log = some log
write_lines (line ∷ lines) log = elim (write_line line log) [
  | none ↦ none
  | some log' ↦ write_lines lines log'
]
