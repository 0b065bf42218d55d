-- ===== src/Util/Pool.antt =====
-- src/util/memory_pool.h: the pool of blocks of one size. A block is the number that it was cut
-- from a chunk with; one that is larger than the pool's blocks is taken from the heap, whose blocks
-- are numbered apart. The tag before a block says which kind it is. Each method holds the lock.
pub mod Blocks
mod Examples
use emq.Base.{
  ℕ, zero, suc, ◌+◌, ◌-◌, ◌^◌, Bool, true, false, not, Option, none, some, List, [], ◌∷◌,
  if◌then◌else◌, ltb, ◌==◌, keep_if,
}
use emq.Base.Words.{u64}

-- `sizeof(void*)` and the hidden header.
abbrev pub pointer_size : ℕ
pointer_size = 8

abbrev pub header_size : ℕ
header_size = 16

-- A pointer that `allocate` returned, by the tag that it finds.
pub data Block : Type 0 where
  pooled : ℕ → Block
  oversized : ℕ → Block

pub record Pool : Type 0 where
  pub user_block_size : ℕ
  pub slot_size : ℕ
  pub blocks_per_chunk : ℕ
  pub allow_grow : Bool
  pub free_list : List ℕ
  pub total_blocks : ℕ
  pub in_use : ℕ
  pub heap_blocks : ℕ

-- The blocks of a chunk, put on the free list one by one.
unfoldable pub thread_chunk : ℕ → ℕ → List ℕ → List ℕ
thread_chunk zero base free = free
thread_chunk (suc blocks) base free = thread_chunk blocks (base + 1) (base ∷ free)

unfoldable pub allocate_chunk_locked : ℕ → Pool → Pool
unfolding thread_chunk
allocate_chunk_locked blocks p = record p {
  free_list = thread_chunk blocks p.total_blocks p.free_list;
  total_blocks = p.total_blocks + blocks;
}

unfoldable pub new_pool : ℕ → ℕ → Bool → Pool
unfolding allocate_chunk_locked
new_pool block_size initial_blocks allow_grow =
    let user : ℕ = if ltb block_size pointer_size then pointer_size else block_size in
    let blocks : ℕ = if initial_blocks == 0 then 1 else initial_blocks in
    let empty : Pool = record {
      user_block_size = user;
      slot_size = header_size + user;
      blocks_per_chunk = blocks;
      allow_grow = allow_grow;
      free_list = [];
      total_blocks = 0;
      in_use = 0;
      heap_blocks = 0;
    } in
    allocate_chunk_locked blocks empty

-- The head of the free list.
unfoldable pub take_free : Pool → Option Block × Pool
take_free p = elim p.free_list [
  | [] ↦ (none, p)
  | b ∷ rest ↦ (some (Block.pooled b), record p { free_list = rest; in_use = u64 (p.in_use + 1) })
]

abbrev is_nil : List ℕ → Bool
is_nil [] = true
is_nil (b ∷ bs) = false

-- A block and the pool, or none where the source returns `nullptr`.
unfoldable pub allocate : ℕ → Pool → Option Block × Pool
unfolding take_free allocate_chunk_locked
allocate size p =
    if ltb p.user_block_size size
    then (some (Block.oversized p.heap_blocks), record p { heap_blocks = p.heap_blocks + 1 })
    else if is_nil p.free_list
    then (if p.allow_grow
        then take_free (allocate_chunk_locked p.blocks_per_chunk p)
        else (none, p))
    else take_free p

unfoldable pub deallocate : Block → Pool → Pool
deallocate (Block.oversized b) p = p
deallocate (Block.pooled b) p = record p {
  free_list = b ∷ p.free_list;
  in_use = u64 (p.in_use + 2 ^ 64 - 1);
}

-- The blocks that users hold, in a program that returns what it holds and no more.
pub record Use : Type 0 where
  pub pool : Pool
  pub held : List ℕ

pub data Event : Type 0 where
  get : ℕ → Event
  give_back : ℕ → Event

abbrev pub holds : ℕ → List ℕ → Bool
holds b [] = false
holds b (c ∷ cs) = if c == b then true else holds b cs

abbrev taken : Option Block → List ℕ → List ℕ
taken (some (Block.pooled b)) held = b ∷ held
taken o held = held

unfoldable pub step : Event → Use → Use
unfolding allocate deallocate
step (get size) u = record {
  pool = (allocate size u.pool).1;
  held = taken (allocate size u.pool).0 u.held;
}
step (give_back b) u =
    if holds b u.held
    then record {
      pool = deallocate (Block.pooled b) u.pool;
      held = keep_if (λ c. not (c == b)) u.held;
    }
    else u

unfoldable pub run : List Event → Use → Use
unfolding step
run [] u = u
run (e ∷ es) u = run es (step e u)
