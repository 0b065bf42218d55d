-- ===== src/Util/Pool/Examples.antt =====
-- The theorems on the pool at a concrete run: two blocks of a chunk, then a second chunk.
use emq.Base.{◌+◌, ◌≡◌, true, List, [], ◌∷◌, length, arith}
use emq.Util.Pool.{
  Event, step, run, allocate, deallocate, new_pool, take_free, allocate_chunk_locked, thread_chunk,
}
use emq.Util.Pool.Event.{get, give_back}
use emq.Util.Pool.Blocks.{count, unused, each_block_once}

abbrev requests : List Event
requests = get 10 ∷ get 100 ∷ get 20 ∷ give_back 1 ∷ get 1 ∷ get 2 ∷ []

each_block_once_example :
    (count 2 (run requests (unused 64 2 true)).pool.free_list
        + count 2 (run requests (unused 64 2 true)).held
      ≡ 1)
    × ((run requests (unused 64 2 true)).pool.in_use
        ≡ length (run requests (unused 64 2 true)).held)
    × ((run requests (unused 64 2 true)).pool.total_blocks
        ≡ length (run requests (unused 64 2 true)).pool.free_list
          + (run requests (unused 64 2 true)).pool.in_use)
unfolding run step allocate deallocate new_pool take_free allocate_chunk_locked thread_chunk
each_block_once_example = each_block_once requests 64 2 true 2 (omega arith) (omega arith)
