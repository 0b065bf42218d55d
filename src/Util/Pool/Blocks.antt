-- ===== src/Util/Pool/Blocks.antt =====
-- src/util/memory_pool.h: each block of the pool is free or held by one user, and the counters say
-- how many there are.
use emq.Base.{
  ℕ, zero, suc, ◌+◌, ◌^◌, ◌≤◌, ◌<◌, ◌≡◌, inl, inr, refl, sym, subst, Bool, true, not, Option, List,
  [], ◌∷◌, if◌then◌else◌, ltb, ◌==◌, Bool-cases, length, arith, keep_if, if-both, if-then, if-else,
}
use emq.Util.Pool.{
  Block, Pool, Use, Event, thread_chunk, allocate_chunk_locked, new_pool, take_free, allocate,
  deallocate, holds, taken, is_nil, step, run,
}

-- How often a list has a block.
unfoldable pub count : ℕ → List ℕ → ℕ
count b [] = 0
count b (c ∷ cs) = let rest = count b cs in if c == b then rest + 1 else rest

count-thread_chunk :
    (b blocks base : ℕ) (free : List ℕ)
    → count b (thread_chunk blocks base free)
      ≡ count b free + (if ltb b base then 0 else if ltb b (base + blocks) then 1 else 0)
unfolding thread_chunk count
count-thread_chunk b zero base free = ground arith
count-thread_chunk b (suc blocks) base free =
    ground (arith, count-thread_chunk b blocks (base + 1) (base ∷ free))

length-thread_chunk :
    (blocks base : ℕ) (free : List ℕ)
    → length (thread_chunk blocks base free) ≡ length free + blocks
unfolding thread_chunk
length-thread_chunk zero base free = omega arith
length-thread_chunk (suc blocks) base free =
    omega (arith, length-thread_chunk blocks (base + 1) (base ∷ free))

count-keep_if :
    (b c : ℕ) (held : List ℕ)
    → count b (keep_if (λ x. not (x == c)) held) ≡ (if b == c then 0 else count b held)
unfolding count
count-keep_if b c [] = ground arith
count-keep_if b c (x ∷ held) = ground (arith, count-keep_if b c held)

length-keep_if_lem :
    (c : ℕ) (held : List ℕ) → length (keep_if (λ x. not (x == c)) held) + count c held ≡ length held
unfolding count
length-keep_if_lem c [] = omega arith
length-keep_if_lem c (x ∷ held) = ground (arith, length-keep_if_lem c held)

count-holds : (b : ℕ) (held : List ℕ) → holds b held ≡ true → 0 < count b held
unfolding count
count-holds b [] h = cc
count-holds b (c ∷ cs) h = ground (arith, count-holds b cs)

pub record Inv (n : ℕ) (u : Use) : Type 0 where
  pub early : u.pool.in_use ≤ n
  pub used : u.pool.in_use ≡ length u.held
  pub total : u.pool.total_blocks ≡ length u.pool.free_list + length u.held
  pub once : (b : ℕ) → b < u.pool.total_blocks → count b u.pool.free_list + count b u.held ≡ 1
  pub none_above : (b : ℕ) → u.pool.total_blocks ≤ b → count b u.pool.free_list + count b u.held ≡ 0

abbrev pub using : Pool → List ℕ → Use
using p held = record { pool = p; held = held }

abbrev outcome : List ℕ → Option Block × Pool → Use
outcome held r = using r.1 (taken r.0 held)

module _ {n : ℕ} where
  chunk-Inv :
      (blocks : ℕ) (p : Pool) (held : List ℕ)
      → Inv n (using p held)
      → Inv n (using (allocate_chunk_locked blocks p) held)
  unfolding allocate_chunk_locked
  chunk-Inv blocks p held v = record {
    early = v.early;
    used = v.used;
    total = omega (arith, v.total, length-thread_chunk blocks p.total_blocks p.free_list);
    once = λ b h. ground (
      arith,
      h,
      v.once b,
      v.none_above b,
      count-thread_chunk b blocks p.total_blocks p.free_list,
    );
    none_above = λ b h.
        ground (arith, h, v.none_above b, count-thread_chunk b blocks p.total_blocks p.free_list);
  }

  later : (u : Use) → Inv n u → Inv (suc n) u
  later u v = record {
    early = omega (arith, v.early);
    used = v.used;
    total = v.total;
    once = v.once;
    none_above = v.none_above;
  }

  -- The head of the free list goes to the user.
  taken-Inv :
      (p : Pool) (free held : List ℕ)
      → suc n < 2 ^ 64
      → p.free_list ≡ free
      → Inv n (using p held)
      → Inv (suc n) (
          using
            (take_free (record p { free_list = free })).1
            (taken (take_free (record p { free_list = free })).0 held))
  unfolding take_free count
  taken-Inv p [] held small e v =
      later _ (subst (λ l. Inv n (using (record p { free_list = l }) held)) e v)
  taken-Inv p (b ∷ free) held small e v = record {
    early = omega (arith, w.early);
    used = omega (arith, w.used, w.early);
    total = omega (arith, w.total);
    once = λ c h. ground (arith, w.once c h);
    none_above = λ c h. ground (arith, w.none_above c h);
  }
    where
      w : Inv n (using (record p { free_list = b ∷ free }) held)
      w = subst (λ l. Inv n (using (record p { free_list = l }) held)) e v

  take_free-Inv :
      (p : Pool) (held : List ℕ)
      → suc n < 2 ^ 64
      → Inv n (using p held)
      → Inv (suc n) (using (take_free p).1 (taken (take_free p).0 held))
  take_free-Inv p held small v = taken-Inv p p.free_list held small refl v

  heap-Inv :
      (p : Pool) (held : List ℕ) (h : ℕ)
      → Inv n (using p held)
      → Inv (suc n) (using (record p { heap_blocks = h }) held)
  heap-Inv p held h v = record {
    early = omega (arith, v.early);
    used = v.used;
    total = v.total;
    once = v.once;
    none_above = v.none_above;
  }

  allocate-Inv :
      (size : ℕ) (p : Pool) (held : List ℕ)
      → suc n < 2 ^ 64
      → Inv n (using p held)
      → Inv (suc n) (outcome held (allocate size p))
  unfolding allocate
  allocate-Inv size p held small v =
      if-both (λ r. Inv (suc n) (outcome held r)) (ltb p.user_block_size size) _ _
        (heap-Inv p held _ v)
        (if-both (λ r. Inv (suc n) (outcome held r)) (is_nil p.free_list) _ _
          (if-both (λ r. Inv (suc n) (outcome held r)) p.allow_grow _ _
            (take_free-Inv _ held small (chunk-Inv p.blocks_per_chunk p held v)) (later _ v))
          (take_free-Inv p held small v))

  returned-Inv :
      (b : ℕ) (p : Pool) (held : List ℕ)
      → suc n < 2 ^ 64
      → holds b held ≡ true
      → Inv n (using p held)
      → Inv (suc n) (using (deallocate (Block.pooled b) p) (keep_if (λ c. not (c == b)) held))
  unfolding deallocate count
  returned-Inv b p held small h v = record {
    early = omega (arith, v.early, some_held, v.used, at_most_one, length-keep_if_lem b held);
    used = omega (arith, v.early, some_held, v.used, at_most_one, length-keep_if_lem b held);
    total = omega (arith, v.total, some_held, at_most_one, length-keep_if_lem b held);
    once = λ c below.
        ground (arith, v.once c below, count-keep_if c b held, v.once b, v.none_above b, some_held);
    none_above = λ c above.
        ground (arith, v.none_above c above, count-keep_if c b held, v.none_above b, some_held);
  }
    where
      some_held : 0 < count b held
      some_held = count-holds b held h

      at_most_one : count b held ≤ 1
      at_most_one = ground (arith, v.once b, v.none_above b)

  step-Inv : (e : Event) (u : Use) → suc n < 2 ^ 64 → Inv n u → Inv (suc n) (step e u)
  unfolding step
  step-Inv (Event.get size) u small v = allocate-Inv size u.pool u.held small v
  step-Inv (Event.give_back b) u small v = elim (Bool-cases (holds b u.held)) [
    | inl mine ↦
        if-then (Inv (suc n)) (holds b u.held) _ u mine (returned-Inv b u.pool u.held small mine v)
    | inr other ↦ subst (Inv (suc n)) (sym (if-else (holds b u.held) _ u other)) (later u v)
  ]

run-Inv :
    (n : ℕ) (es : List Event) (u : Use)
    → n + length es < 2 ^ 64
    → Inv n u
    → Inv (n + length es) (run es u)
unfolding run
run-Inv n [] u small v = subst (λ k. Inv k u) (omega arith) v
run-Inv n (e ∷ es) u small v =
    subst (λ k. Inv k (run es (step e u))) (omega arith)
      (run-Inv (suc n) es (step e u) (omega arith) (step-Inv e u (omega arith) v))

-- A pool that nobody has used.
abbrev pub unused : ℕ → ℕ → Bool → Use
unused block_size initial grow = using (new_pool block_size initial grow) []

unused-Inv : (block_size initial : ℕ) (grow : Bool) → Inv 0 (unused block_size initial grow)
unfolding new_pool count
unused-Inv block_size initial grow = chunk-Inv _ _ [] (record {
  early = omega arith;
  used = refl;
  total = omega arith;
  once = λ b h. absurd (omega (arith, h));
  none_above = λ b h. refl_zero;
})
  where
    refl_zero : 0 + 0 ≡ 0
    refl_zero = omega arith

-- After any requests and returns of held blocks, fewer than 2 ^ 64, each block that the pool has
-- cut is free or held, and only once: no two requests hold one block. The count of blocks in use
-- is the number of blocks held, and the others are free.
pub each_block_once :
    (es : List Event) (block_size initial : ℕ) (grow : Bool) (b : ℕ)
    → length es < 2 ^ 64
    → b < (run es (unused block_size initial grow)).pool.total_blocks
    → (count b (run es (unused block_size initial grow)).pool.free_list
          + count b (run es (unused block_size initial grow)).held
        ≡ 1)
      × ((run es (unused block_size initial grow)).pool.in_use
          ≡ length (run es (unused block_size initial grow)).held)
      × ((run es (unused block_size initial grow)).pool.total_blocks
          ≡ length (run es (unused block_size initial grow)).pool.free_list
            + (run es (unused block_size initial grow)).pool.in_use)
each_block_once es block_size initial grow b small h =
    (v.once b h, v.used, omega (arith, v.total, v.used))
  where
    v : Inv (0 + length es) (run es (unused block_size initial grow))
    v =
        run-Inv 0 es (unused block_size initial grow) (omega arith)
          (unused-Inv block_size initial grow)
