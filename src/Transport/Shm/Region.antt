-- ===== src/Transport/Shm/Region.antt =====
-- src/transport/shm_transport.cpp: the checks that `openInbox` makes of a segment that another
-- process created, and where the slots stand in it. `size_t` has 64 bits.
use emq.Base.{
  ℕ, ◌+◌, ◌-◌, ◌*◌, ◌/◌, ◌%◌, ◌^◌, ◌≤◌, ◌<◌, ◌≡◌, Bool, true, false, not, ◌||◌, arith, ltb, ◌==◌,
  if◌then◌else◌,
}
use native.Mathlib.Nat.{mod-lt, mul-le-mul_right, div-mul-le_self}
use emq.Base.Words.{u64}
use emq.Transport.Shm.{slot_header_size}

abbrev pub shm_magic : ℕ
shm_magic = 0x4D485345

abbrev pub shm_layout_version : ℕ
shm_layout_version = 1

-- `sizeof(ShmHeader)`
abbrev pub shm_header_size : ℕ
shm_header_size = 32

abbrev pub size_max : ℕ
size_max = 2 ^ 64 - 1

pub record ShmHeader : Type 0 where
  pub magic : ℕ
  pub layout_version : ℕ
  pub slot_size : ℕ
  pub slot_count : ℕ

-- The bytes that the geometry asks for.
unfoldable pub needed : ShmHeader → ℕ
needed h = u64 (shm_header_size + u64 (h.slot_count * h.slot_size))

-- Whether a mapped segment of this size is taken.
unfoldable pub accepts : ℕ → ShmHeader → Bool
unfolding needed
accepts total_size h =
    if not (h.magic == shm_magic)
    then false
    else if not (h.layout_version == shm_layout_version)
    then false
    else if (h.slot_count == 0) || (h.slot_size == 0)
    then false
    else if ltb h.slot_size slot_header_size
    then false
    else if ltb ((size_max - shm_header_size) / h.slot_size) h.slot_count
    then false
    else not (ltb total_size (needed h))

-- `Region::slot`: where the slot of an index begins.
unfoldable pub slot_offset : ShmHeader → ℕ → ℕ
slot_offset h idx = u64 (shm_header_size + u64 (idx % h.slot_count * h.slot_size))

-- The smallest geometry that `init` asks for.
unfoldable pub clamp_slot_size : ℕ → ℕ
clamp_slot_size n = if ltb n 64 then 64 else n

unfoldable pub clamp_slot_count : ℕ → ℕ
clamp_slot_count n = if ltb n 2 then 2 else n

-- `openInbox` writes this header into a segment that it creates.
unfoldable pub new_header : ℕ → ℕ → ShmHeader
unfolding clamp_slot_size clamp_slot_count
new_header size count = record {
  magic = shm_magic;
  layout_version = shm_layout_version;
  slot_size = clamp_slot_size size;
  slot_count = clamp_slot_count count;
}

-- What the checks establish, the quotient and the sum apart.
accepts-facts :
    (total_size : ℕ) (h : ShmHeader)
    → accepts total_size h ≡ true
    → (0 < h.slot_count)
      × (slot_header_size ≤ h.slot_size)
      × (h.slot_count ≤ (size_max - shm_header_size) / h.slot_size)
      × (needed h ≤ total_size)
unfolding accepts
accepts-facts total_size h ok = ground (arith, ok)

-- A segment that is accepted holds every slot whole, and each slot its header: whatever index a
-- producer takes, it reads and writes inside the mapping.
pub accepts-within :
    (total_size idx : ℕ) (h : ShmHeader)
    → accepts total_size h ≡ true
    → (slot_header_size ≤ h.slot_size) × (slot_offset h idx + h.slot_size ≤ total_size)
unfolding accepts needed slot_offset
accepts-within total_size idx h ok =
    let (some_slot, wide, few, mapped) = accepts-facts total_size h ok in
    (
      wide,
      omega (
        arith,
        mapped,
        mul-le-mul_right h.slot_size few,
        div-mul-le_self (size_max - shm_header_size) h.slot_size,
        mul-le-mul_right h.slot_size (inside some_slot),
        next_slot,
      ),
    )
  where
    inside : 0 < h.slot_count → idx % h.slot_count + 1 ≤ h.slot_count
    inside p = omega (arith, mod-lt idx p)

    next_slot :
        (idx % h.slot_count + 1) * h.slot_size ≡ idx % h.slot_count * h.slot_size + h.slot_size
    next_slot = omega arith
