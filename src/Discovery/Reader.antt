-- ===== src/Discovery/Reader.antt =====
-- src/discovery/discovery_agent.cpp, `Reader`: the cursor that reads an announcement. A read past
-- the end of the buffer would be `none`.
use emq.Base.{
  ℕ, ◌+◌, ◌-◌, Bool, false, ◌||◌, Option, some, [], Bytes, ltb, if◌then◌else◌, ◌>>=◌, length,
  get_elem?,
}
use emq.Codec.Wire.{get_u16, get_u32, slice}

pub record Reader : Type 0 where
  pub p : Bytes
  pub off : ℕ
  pub ok : Bool

-- A read: its value, and the cursor after it.
abbrev pub Read : Type 0 → Type 0
Read A = Reader → Option (A × Reader)

abbrev pub failed : Reader → Reader
failed r = record r { ok = false }

abbrev pub moved : ℕ → Reader → Reader
moved n r = record r { off = r.off + n }

-- `need(n)` is false.
abbrev pub lacks : ℕ → Reader → Bool
lacks n r = ltb (length r.p) n || ltb (length r.p - n) r.off

unfoldable pub read_u8 : Read ℕ
read_u8 r =
    if lacks 1 r then some (0, failed r) else get_elem? r.p r.off >>= λ v. some (v, moved 1 r)

unfoldable pub read_u16 : Read ℕ
read_u16 r =
    if lacks 2 r then some (0, failed r) else get_u16 r.p r.off >>= λ v. some (v, moved 2 r)

unfoldable pub read_u32 : Read ℕ
read_u32 r =
    if lacks 4 r then some (0, failed r) else get_u32 r.p r.off >>= λ v. some (v, moved 4 r)

-- The `n` bytes of a string, once its length is read.
unfoldable pub read_text : ℕ → Read Bytes
read_text n r =
    if lacks n r then some ([], failed r) else slice r.p r.off n >>= λ s. some (s, moved n r)

unfoldable pub read_str8 : Read Bytes
unfolding read_u8 read_text
read_str8 r = read_u8 r >>= λ (n, r'). read_text n r'

unfoldable pub read_str16 : Read Bytes
unfolding read_u16 read_text
read_str16 r = read_u16 r >>= λ (n, r'). read_text n r'
