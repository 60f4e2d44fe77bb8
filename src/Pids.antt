-- ===== src/Pids.antt =====
-- The numbers of processes of thread/thread.c, over Bitmap, without their lock. A pid_t is
-- its 16 bits.
pub mod Numbers
mod Examples
use winx.Base.{
  ℕ, zero, suc, ◌+◌, ◌-◌, ◌*◌, ◌/◌, ◌%◌, ◌^◌, ◌≤◌, ◌<◌, min, bit_and, bit_or, ◌≡◌, refl, sym, ap,
  ap₂, subst, ◌∙◌, fun_ext, ◌≢◌, ◌↔◌, ◌⊎◌, inl, inr, Bool, true, false, not, ◌&&◌, ◌||◌, Option,
  none, some, List, [], ◌∷◌, ◌++◌, arith, ltb, leb, ◌==◌, if◌then◌else◌, Bool-cases, Option-cases,
  ==→eq, ==-refl, ne→==, lt→ltb, le→ltb, length, get_or, length-append, update, slice, Run, done,
  halted, unfinished, ◌>>=◌, ◌>>◌, assert, le→leb, lt→leb, leb→le, leb→lt, ltb→lt, ltb→le, Ends,
  Ends->>=, Ends-assert, Ends-any,
}
use winx.Base.{Run}
use winx.CString.{Memory}
use winx.Bitmap
use winx.Bitmap.{Bitmap}

pub record PidPool : Type 0 where
  pub pid_bitmap : Bitmap
  pub pid_start : ℕ

-- `memory` is that of `pid_bitmap_bits`.
pub pid_pool_init : Memory → PidPool
pid_pool_init memory = record {
  pid_bitmap = Bitmap.init (record { btmp_bytes_len = 128; bits = memory });
  pid_start = 1;
}

-- -1 where there is no free number
abbrev pub index_of : Option ℕ → ℕ
index_of none = 2 ^ 32 - 1
index_of (some bit_idx) = bit_idx

pub allocate_pid : PidPool → Run (PidPool × ℕ)
allocate_pid pid_pool = do
  found ← Bitmap.scan pid_pool.pid_bitmap 1
  let bit_idx = index_of found
  btmp ← Bitmap.set pid_pool.pid_bitmap bit_idx 1
  done (record pid_pool { pid_bitmap = btmp }, (bit_idx + pid_pool.pid_start) % 2 ^ 16)

pub release_pid : PidPool → ℕ → Run PidPool
release_pid pid_pool pid = do
  btmp ← Bitmap.set pid_pool.pid_bitmap ((pid % 2 ^ 16 + 2 ^ 32 - pid_pool.pid_start) % 2 ^ 32) 0
  done (record pid_pool { pid_bitmap = btmp })
