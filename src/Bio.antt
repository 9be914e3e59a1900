-- ===== src/Bio.antt =====
-- target/misaligned_bio.py: writes a pattern in bios that do not start at page boundaries, and
-- verifies it. The unit is a sector of 512 bytes: all addresses and sizes that the program uses are
-- multiples of it when a page has an even number of sectors, and memory is filled a sector at a time.
-- O_DIRECT, the kernel's splitting of bios and the explicit verify run's command line are not modelled.
pub mod Pattern
pub mod Verify
use drbd9_tests.Prelude.{
  ℕ, zero, suc, ◌+◌, ◌-◌, ◌*◌, ◌%◌, ◌≡◌, refl, Bool, true, false, ◌&&◌, ◌||◌, List, [], ◌∷◌, ◌++◌,
  length, drop, ltb, ◌==◌, nat_eq, if◌then◌else◌,
}
use drbd9_tests.Results.{Error, os_error, runtime_error}
use drbd9_tests.Exec.{Exec, pure, raise, ◌>>=◌, ◌>>◌}

-- What a sector holds: one byte throughout, or something else.
pub data Sector : Type 0 where
  fill : ℕ → Sector
  mixed : ℕ → Sector

-- The memory by sectors from the start of the buffer; the device behind and ahead of the file
-- position; and the global `current_byte`.
pub record State : Type 0 where
  pub current_byte : ℕ
  pub buffer : ℕ → Sector
  pub behind : List Sector
  pub ahead : List Sector

-- `memset(address, byte, sect_size)` keeps the low byte of its argument.
unfoldable pub memset : ℕ → ℕ → (ℕ → Sector) → ℕ → Sector
memset address byte buffer i = if i == address then fill (byte % 256) else buffer i

-- The loop of `prepare_buffer`, over the sectors that are left.
unfoldable pub fill_from : ℕ → ℕ → ℕ → (ℕ → Sector) → ℕ → Sector
unfolding memset
fill_from zero start byte buffer = buffer
fill_from (suc n) start byte buffer = fill_from n (start + 1) (byte + 1) (memset start byte buffer)

unfoldable pub prepare_buffer : ℕ → ℕ → State → State
prepare_buffer start size s = record s {
  buffer = fill_from size start s.current_byte s.buffer;
  current_byte = s.current_byte + size;
}

unfoldable pub read_memory : ℕ → ℕ → (ℕ → Sector) → List Sector
read_memory zero start buffer = []
read_memory (suc n) start buffer = buffer start ∷ read_memory n (start + 1) buffer

-- A write at the file position; one that the device has no room for is short and raises.
unfoldable pub write_sectors : List Sector → Exec State (Unit {0})
write_sectors sectors s =
    if ltb (length s.ahead) (length sectors)
    then raise os_error s
    else pure tt (record s { behind = s.behind ++ sectors; ahead = drop (length sectors) s.ahead })

-- `prepare_buffer(start, size)` and `write(fd, start, size)`.
unfoldable pub write_bio : ℕ → ℕ → Exec State (Unit {0})
write_bio start size s =
    let t = prepare_buffer start size s in write_sectors (read_memory size start t.buffer) t

-- `for i in range(1, page_size // sect_size)`, with the rounds that are left.
unfoldable pub write_misaligned : ℕ → ℕ → ℕ → Exec State (Unit {0})
write_misaligned page zero i = pure tt
write_misaligned page (suc rounds) i = do write_bio i page; write_misaligned page rounds (i + 1)

-- The four vectors of `writev`, one sector in each of four pages.
unfoldable pub write_holes : ℕ → Exec State (Unit {0})
write_holes page s =
    let t =
      prepare_buffer (3 * page) 1
        (prepare_buffer (2 * page) 1 (prepare_buffer page 1 (prepare_buffer 0 1 s))) in
    write_sectors (t.buffer 0 ∷ t.buffer page ∷ t.buffer (2 * page) ∷ t.buffer (3 * page) ∷ []) t

-- The mark of the end of the test.
unfoldable pub write_mark : Exec State (Unit {0})
write_mark s =
    let t = record s { buffer = memset 0 255 s.buffer } in
    write_sectors (read_memory 1 0 t.buffer) t

-- A page has `2 * half` sectors.
unfoldable pub write_pattern : ℕ → Exec State (Unit {0})
write_pattern half =
    let page = 2 * half in
    do
      write_misaligned page (page - 1) 1
      write_bio half (page + half)
      write_bio 1 (page * 2 + 1)
      write_holes page
      write_mark

unfoldable pub same_fill : Sector → ℕ → Bool
same_fill (fill b) byte = b == byte % 256
same_fill (mixed n) byte = false

-- The loop of `verify_pattern` over what is ahead; at the end of the device the read is short.
unfoldable pub verify_loop : ℕ → List Sector → ℕ → ℕ → Exec State (Unit {0})
unfolding same_fill
verify_loop expected_end_sector [] sector byte s = raise os_error s
verify_loop expected_end_sector (x ∷ rest) sector byte s =
    let next =
      verify_loop expected_end_sector rest (sector + 1) (byte + 1)
        (record s { current_byte = byte + 1; behind = s.behind ++ x ∷ []; ahead = rest }) in
    if same_fill x byte
    then next
    else if (expected_end_sector == 0 || sector == expected_end_sector) && same_fill x 255
    then pure tt (record s { behind = s.behind ++ x ∷ []; ahead = rest })
    else raise runtime_error (record s { behind = s.behind ++ x ∷ []; ahead = rest })

unfoldable pub verify_pattern : Exec State (Unit {0})
verify_pattern s =
    let device = s.behind ++ s.ahead in
    verify_loop s.current_byte device 0 0
      (record s { current_byte = 0; behind = []; ahead = device })

-- The run without "verify": write, then verify.
unfoldable pub main : ℕ → Exec State (Unit {0})
main half = do write_pattern half; verify_pattern
