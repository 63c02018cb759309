-- ===== src/Response.antt =====
-- The pending response that the private data of kernel/hwe_i2c.c and kernel/hwe_spi.c hold in the
-- same fields, and what both files do to it with the same statements.
pub mod Pending
use linux_hardware_devices_e.Prelude.{
  ℕ, ◌+◌, ◌-◌, Bool, true, false, not, ◌&&◌, ◌||◌, [], ◌∷◌, ◌++◌, Bytes, ◌==◌, ltb, length, take,
  drop, replicate, if◌then◌else◌,
}
use linux_hardware_devices_e.Consts.{hwe_max_response}

-- `resp_ptr` is the distance from `resp`. It is read only while `resp_size` is not 0.
pub record Response : Type 0 where
  pub resp : Bytes
  pub resp_ptr : ℕ
  pub resp_size : ℕ
  pub async : Bool

abbrev pub zeroed : Response
zeroed = record { resp = replicate hwe_max_response 0; resp_ptr = 0; resp_size = 0; async = false }

-- memcpy(dst, src, length of src)
unfoldable pub memcpy : Bytes → Bytes → Bytes
memcpy dst src = src ++ drop (length src) dst

-- The response of a pair, to be read from its beginning.
unfoldable pub load : Response → Bytes → Bool → Response
load r bytes async = record r {
  resp = memcpy r.resp bytes;
  resp_size = length bytes;
  resp_ptr = 0;
  async = async;
}

abbrev pub discard : Response → Response
discard r = record r { resp_size = 0 }

-- The size of a read of `len` bytes.
abbrev pub chunk : Response → ℕ → ℕ
chunk r len = if ltb len r.resp_size then len else r.resp_size

unfoldable pub read_bytes : Response → ℕ → Bytes
read_bytes r sz = take sz (drop r.resp_ptr r.resp)

unfoldable pub consume : Response → ℕ → Response
consume r sz = record r { resp_size = r.resp_size - sz; resp_ptr = r.resp_ptr + sz }

-- The test of the asynchronous handlers.
unfoldable pub is_busy : Response → Bool
is_busy r = not (r.resp_size == 0) && (not r.async || not (r.resp_ptr == 0))

unfoldable pub async_load : Response → Bytes → Response
unfolding is_busy load memcpy
async_load r bytes = if is_busy r then r else load r bytes true
