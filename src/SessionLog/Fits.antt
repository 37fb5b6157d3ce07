-- ===== src/SessionLog/Fits.antt =====
-- exercises/exitlab/logger.cpp: no line is written out of the buffer.
use going_unmanaged.Prelude.{
  ℕ, zero, suc, ◌+◌, ◌-◌, ◌≤◌, ◌≡◌, refl, ◌∙◌, List, [], ◌∷◌, ◌++◌, some, Bool-cases, ltb, lt→ltb,
  not_ltb→ge, Bytes, length, length-append, length-set, length-replicate, set, replicate, arith,
  inl, inr,
}
use going_unmanaged.Strings.Parts.{substr}
use going_unmanaged.SessionLog.{
  log_capacity, Logger, new_logger, write_bytes, printed, write_line, write_lines,
}

length-substr : (n : ℕ) (s : Bytes) → length (substr n s) ≤ n
unfolding substr
length-substr zero s = omega arith
length-substr (suc n) [] = omega arith
length-substr (suc n) (b ∷ s) = omega (arith, length-substr n s)

write_bytes-inside :
    (buffer : Bytes) (at_byte : ℕ) (bs : Bytes)
    → at_byte + length bs ≤ length buffer
    → (buffer' : Bytes) × (write_bytes buffer at_byte bs ≡ some buffer')
      × (length buffer' ≡ length buffer)
unfolding write_bytes
write_bytes-inside buffer at_byte [] l = (buffer, refl, refl)
write_bytes-inside buffer at_byte (b ∷ bs) l =
    let (buffer', e, k) =
      write_bytes-inside (set buffer at_byte b) (at_byte + 1) bs
        (omega (arith, length-set buffer at_byte b)) in
    (buffer', rw (lt→ltb at_byte (length buffer) (omega arith)) e, k ∙ length-set buffer at_byte b)

write_line-inside :
    (line : Bytes) (log : Logger)
    → length log.buffer ≡ log_capacity
    → (log' : Logger) × (write_line line log ≡ some log') × (length log'.buffer ≡ log_capacity)
unfolding write_line printed
write_line-inside line log h = elim (Bool-cases (ltb log_capacity (log.used + 256))) [
  | inl y ↦ (log, rw (write_line, y) refl, h)
  | inr n ↦
      let room : log.used + 256 ≤ log_capacity = not_ltb→ge log_capacity (log.used + 256) n in
      let short = length-substr (log_capacity - log.used - 1) (line ++ 10 ∷ []) in
      let (buffer', e, k) =
        write_bytes-inside log.buffer log.used (printed (log_capacity - log.used) line) (
          omega (
            arith,
            room,
            h,
            short,
            length-append (substr (log_capacity - log.used - 1) (line ++ 10 ∷ [])) (0 ∷ []),
          )) in
      (
        record { buffer = buffer'; used = log.used + (length line + 1); lines = log.lines + 1 },
        rw (write_line, n, e) refl,
        k ∙ h,
      )
]

write_lines-inside :
    (lines : List Bytes) (log : Logger)
    → length log.buffer ≡ log_capacity
    → (log' : Logger) × (write_lines lines log ≡ some log') × (length log'.buffer ≡ log_capacity)
unfolding write_lines
write_lines-inside [] log h = (log, refl, h)
write_lines-inside (line ∷ lines) log h =
    let (log₁, e, h₁) = write_line-inside line log h in
    let (log₂, e', h₂) = write_lines-inside lines log₁ h₁ in (log₂, rw (write_lines, e) e', h₂)

-- Whatever is logged, of whatever length, every byte is written into the buffer.
pub write_lines_lem :
    (filler : ℕ) (lines : List Bytes)
    → (log : Logger) × (write_lines lines (new_logger filler) ≡ some log)
      × (length log.buffer ≡ log_capacity)
unfolding new_logger
write_lines_lem filler lines =
    write_lines-inside lines (new_logger filler)
      (length-set (replicate log_capacity filler) 0 0 ∙ length-replicate log_capacity filler)
