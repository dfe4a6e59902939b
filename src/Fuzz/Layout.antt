-- ===== src/Fuzz/Layout.antt =====
-- The header of a snapshot, as its writer lays it out (src/agent/snapshot.zig), and the values that
-- scripts/fuzz_restore.py sets its fields to.
use nether.Prelude.{ℕ, Among, here, there}
use nether.Fuzz.{fields, extremes}

-- A field of the header, by its offset and width: all but the RAM's base address at 16, the RAM encoding
-- at 84, the number of pages at 96 and the base's size at 100, which the script does not set.
pub data HeaderField : ℕ → ℕ → Type 0 where
  magic : HeaderField 0 4
  version : HeaderField 4 4
  cpu_count : HeaderField 8 4
  cpu_size : HeaderField 12 4
  ram_len : HeaderField 24 8
  gic_len : HeaderField 32 8
  disk_len : HeaderField 40 8
  ram_off : HeaderField 48 8
  console_size : HeaderField 56 4
  uart_size : HeaderField 60 4
  control_flag : HeaderField 64 4
  engine_size : HeaderField 68 4
  conn_id : HeaderField 72 4
  net_flag : HeaderField 76 4
  lifecycle : HeaderField 80 4
  virtual_count : HeaderField 88 8

-- The ends of the ranges of 8, 32 and 64 bits, and of the signed ones of 32 and 64; and 0, 1 and 65536.
pub data IsExtreme : ℕ → Type 0 where
  nothing : IsExtreme 0
  unit : IsExtreme 1
  full_byte : IsExtreme 255
  past_word : IsExtreme 65_536
  sign_of_u32 : IsExtreme 2_147_483_648
  full_u32 : IsExtreme 4_294_967_295
  sign_of_u64 : IsExtreme 9_223_372_036_854_775_808
  full_u64 : IsExtreme 18_446_744_073_709_551_615

pub Among-fields : {off w : ℕ} → HeaderField off w → Among (off, w) fields
Among-fields magic = here
Among-fields version = there here
Among-fields cpu_count = there (there here)
Among-fields cpu_size = there (there (there here))
Among-fields ram_len = there (there (there (there here)))
Among-fields gic_len = there (there (there (there (there here))))
Among-fields disk_len = there (there (there (there (there (there here)))))
Among-fields ram_off = there (there (there (there (there (there (there here))))))
Among-fields console_size = there (there (there (there (there (there (there (there here)))))))
Among-fields uart_size = there (there (there (there (there (there (there (there (there here))))))))
Among-fields control_flag =
    there (there (there (there (there (there (there (there (there (there here)))))))))
Among-fields engine_size =
    there (there (there (there (there (there (there (there (there (there (there here))))))))))
Among-fields conn_id =
    there
      (there (there (there (there (there (there (there (there (there (there (there here)))))))))))
Among-fields net_flag = there (
    there
      (there (there (there (there (there (there (there (there (there (there (there here))))))))))))
Among-fields lifecycle = there (
    there (
      there (
        there
          (there (there (there (there (there (there (there (there (there (there here)))))))))))))
Among-fields virtual_count = there (
    there (
      there (
        there (
          there
            (there (there (there (there (there (there (there (there (there (there here))))))))))))))

pub Among-extremes : {v : ℕ} → IsExtreme v → Among v extremes
Among-extremes nothing = here
Among-extremes unit = there here
Among-extremes full_byte = there (there here)
Among-extremes past_word = there (there (there here))
Among-extremes sign_of_u32 = there (there (there (there here)))
Among-extremes full_u32 = there (there (there (there (there here))))
Among-extremes sign_of_u64 = there (there (there (there (there (there here)))))
Among-extremes full_u64 = there (there (there (there (there (there (there here))))))
