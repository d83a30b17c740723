-- ===== src/Stripe/Populate.antt =====
-- `populate_chunk_stripe` (custom-test/test2-rdma-fin.c) stamps the block of every request and block
-- number, where `block_ptr` looks for it, and writes nothing outside the store.
use mathlib.Core.Path.{subst}
use mio_xcena.Base.{
  ℕ, ◌+◌, ◌-◌, ◌*◌, ◌<◌, ◌≤◌, ◌^◌, ◌≡◌, inl, inr, refl, ◌∙◌, ap, true, arith, u64, u64_small,
  Memory, memset, for_range, for_range_zero, leb, Bool-cases, leb→le,
}
use mio_xcena.Block.{sizeof_block_tag, fill_block, verify_block}
use mio_xcena.Block.Stamp.{
  Stamped, stamp_byte, fill_block-Stamped, fill_block-outside, verify_block-Stamped,
}
use mio_xcena.Args.{Cfg}
use mio_xcena.Args.Valid.{IsValid}
use mio_xcena.Grid.{
  Blocks, index_of, offset_of, index_of-lt, before, Written, Written-above, Written-fill,
  Written-skip,
}
use mio_xcena.Stripe.{
  StoreSizes, block_ptr, fill_slot, Populating, fill_group, populate_chunk_stripe,
}
use mio_xcena.Stripe.Layout.{width, IsSized, slot_offset, mul_ge, block_ptr_lem}

module _ (c : Cfg) (s : StoreSizes) (v : IsValid c) (z : IsSized c s) (m₀ : Memory) where
  tag_fits : sizeof_block_tag ≤ c.block_bytes
  tag_fits = omega arith

  abbrev W : ℕ
  W = width c s

  -- The blocks that `fill_block` writes.
  abbrev stamps : Blocks
  stamps = record {
    bytes = c.block_bytes;
    byte = stamp_byte;
    write = λ m dst req blk. fill_block m dst c.block_bytes req blk;
    write-Carries = λ m dst req blk. fill_block-Stamped m dst c.block_bytes req blk tag_fits;
    write-outside =
        λ m dst req blk a out. fill_block-outside m dst c.block_bytes req blk a tag_fits out;
  }

  -- The blocks below number `k` are written, and memory behind the store is as it was.
  record Filled (k : ℕ) (m : Memory) : Type 0 where
    written : Written stamps (width c s) c.requests z.rounded_up k m
    outside : (a : ℕ) → s.store_bytes ≤ a → m a ≡ m₀ a

  -- The numbers that the innermost loop computes.
  record Place (blk group slot : ℕ) : Type 0 where
    req_exact : u64 (u64 (group * c.chunk_slots) + slot) ≡ group * c.chunk_slots + slot
    below_width : group * c.chunk_slots + slot < W
    ptr_exact :
        u64 (u64 ((blk * s.chunks + group) * s.chunk_bytes) + u64 (slot * c.block_bytes))
        ≡ offset_of W c.block_bytes blk (group * c.chunk_slots + slot)
    inside :
        offset_of W c.block_bytes blk (group * c.chunk_slots + slot) + c.block_bytes ≤ s.store_bytes

  place :
      (blk group slot : ℕ)
      → blk < c.req_per_blocks
      → group < s.chunks
      → slot < c.chunk_slots
      → Place blk group slot
  place blk group slot b_lt g_lt s_lt = record {
    req_exact = omega (
      arith,
      mul_ge (index_of W blk (group * c.chunk_slots + slot)) c.block_bytes (omega arith),
      inside,
      z.fits,
    );
    below_width = index_of-lt c.chunk_slots group slot s.chunks s_lt g_lt;
    ptr_exact =
        let exact : (blk * s.chunks + group) * (c.chunk_slots * c.block_bytes)
              + slot * c.block_bytes
            ≡ offset_of W c.block_bytes blk (group * c.chunk_slots + slot) =
          omega arith in
        rw
          (
            z.chunk,
            u64_small ((blk * s.chunks + group) * (c.chunk_slots * c.block_bytes))
                (omega (arith, exact, inside, z.fits)),
            u64_small (slot * c.block_bytes) (omega (arith, exact, inside, z.fits)),
            exact,
          )
          (u64_small _ (omega (arith, inside, z.fits)));
    inside = inside;
  }
    where
      fits : c.req_per_blocks * W * c.block_bytes < 2 ^ 64
      fits = rw z.total at z.fits

      row : index_of W blk (group * c.chunk_slots + slot) < c.req_per_blocks * W
      row =
          (slot_offset s.chunks c.chunk_slots c.block_bytes blk group slot c.req_per_blocks
            (omega arith) g_lt s_lt b_lt fits).1

      inside :
          offset_of W c.block_bytes blk (group * c.chunk_slots + slot) + c.block_bytes
          ≤ s.store_bytes
      inside = omega (arith, z.total, before _ _ c.block_bytes row)

  Filled-at : {k k' : ℕ} (m : Memory) → k ≡ k' → Filled k m → Filled k' m
  Filled-at m e f = subst (λ k. Filled k m) e f

  -- One block is written at its place, or the place is beyond the requests.
  fill_slot-Filled :
      (blk group slot : ℕ) (m : Memory)
      → blk < c.req_per_blocks
      → group < s.chunks
      → slot < c.chunk_slots
      → Filled (index_of W blk (group * c.chunk_slots + slot)) m
      → Filled
          (index_of W blk (group * c.chunk_slots + slot) + 1)
          (fill_slot c (u64 ((blk * s.chunks + group) * s.chunk_bytes)) blk group slot m)
  unfolding fill_slot
  fill_slot-Filled blk group slot m b_lt g_lt s_lt f =
      let p = place blk group slot b_lt g_lt s_lt in
      let req = group * c.chunk_slots + slot in
      rw (p.req_exact, p.ptr_exact)
        (elim (Bool-cases (leb c.requests req)) [
          | inl over ↦ rw over (record {
            written =
                Written-skip stamps W c.requests z.rounded_up blk req m (leb→le _ _ over)
                  p.below_width f.written;
            outside = f.outside;
          })
          | inr below ↦ rw below (record {
            written =
                Written-fill stamps W c.requests z.rounded_up blk req m (ground arith) f.written;
            outside = λ a far.
                fill_block-outside m (offset_of W c.block_bytes blk req) c.block_bytes req blk a
                  (omega arith) (inr (omega (arith, p.inside)))
                ∙ f.outside a far;
          })
        ])

  -- The chunk that a group clears lies inside the store, from its first block on.
  record Chunk (blk group : ℕ) : Type 0 where
    start :
        u64 ((blk * s.chunks + group) * s.chunk_bytes)
        ≡ offset_of W c.block_bytes blk (group * c.chunk_slots)
    end : u64 ((blk * s.chunks + group) * s.chunk_bytes) + s.chunk_bytes ≤ s.store_bytes

  chunk : (blk group : ℕ) → blk < c.req_per_blocks → group < s.chunks → Chunk blk group
  chunk blk group b_lt g_lt = record {
    start = start;
    end = rw (start, z.chunk) (omega (arith, last.inside, slots));
  }
    where
      last : Place blk group (c.chunk_slots - 1)
      last = place blk group (c.chunk_slots - 1) b_lt g_lt (omega arith)

      slots : (c.chunk_slots - 1) * c.block_bytes + c.block_bytes ≡ c.chunk_slots * c.block_bytes
      slots =
          let e : c.chunk_slots ≡ c.chunk_slots - 1 + 1 = omega arith in
          omega (arith, ap (λ (n : ℕ). n * c.block_bytes) e)

      exact :
          (blk * s.chunks + group) * (c.chunk_slots * c.block_bytes)
          ≡ offset_of W c.block_bytes blk (group * c.chunk_slots)
      exact = omega arith

      start :
          u64 ((blk * s.chunks + group) * s.chunk_bytes)
          ≡ offset_of W c.block_bytes blk (group * c.chunk_slots)
      start = rw (z.chunk, exact) (u64_small _ (omega (arith, last.inside, slots, z.fits)))

  chunk-lt :
      (blk group : ℕ)
      → blk < c.req_per_blocks
      → group < s.chunks
      → blk * s.chunks + group + 1 < 2 ^ 64
  chunk-lt blk group b_lt g_lt =
      let p = place blk group 0 b_lt g_lt (omega arith) in
      let wide = mul_ge (blk * s.chunks + group) c.chunk_slots (omega arith) in
      let bytes = mul_ge (index_of W blk (group * c.chunk_slots)) c.block_bytes (omega arith) in
      omega (arith, p.inside, wide, bytes, z.fits)

  record GroupDone (blk group : ℕ) (p : Populating) : Type 0 where
    counted : p.chunk_id ≡ blk * s.chunks + group
    filled : Filled (index_of W blk (group * c.chunk_slots)) p.store

  memset-Filled :
      (k dst n : ℕ) (m : Memory)
      → dst ≡ k * c.block_bytes
      → dst + n ≤ s.store_bytes
      → Filled k m
      → Filled k (memset m dst 0 n)
  unfolding memset
  memset-Filled k dst n m e inside f = record {
    written =
        Written-above stamps W c.requests z.rounded_up k m (memset m dst 0 n) (λ a lt. ground arith)
          f.written;
    outside = λ a far. ground (arith, f.outside a far);
  }

  fill_group-Done :
      (blk group : ℕ) (p : Populating)
      → blk < c.req_per_blocks
      → group < s.chunks
      → GroupDone blk group p
      → GroupDone blk (group + 1) (fill_group c s.chunk_bytes blk group p)
  unfolding fill_group
  fill_group-Done blk group p b_lt g_lt d = rw d.counted (record {
    counted = omega (arith, chunk-lt blk group b_lt g_lt);
    filled = Filled-at _ (omega arith) (
        for_range_zero (λ slot m. Filled (index_of W blk (group * c.chunk_slots + slot)) m) _
          c.chunk_slots
          (λ slot m s_lt f.
            Filled-at _ (omega arith) (fill_slot-Filled blk group slot m b_lt g_lt s_lt f))
          (memset p.store (u64 ((blk * s.chunks + group) * s.chunk_bytes)) 0 s.chunk_bytes)
          (Filled-at _ (omega arith) (
            memset-Filled _ _ s.chunk_bytes p.store (chunk blk group b_lt g_lt).start
              (chunk blk group b_lt g_lt).end d.filled)));
  })

  fill_groups-Done :
      (blk : ℕ) (p : Populating)
      → blk < c.req_per_blocks
      → GroupDone blk 0 p
      → GroupDone (blk + 1) 0 (for_range s.chunks 0 (fill_group c s.chunk_bytes blk) p)
  fill_groups-Done blk p b_lt d =
      let all =
        for_range_zero (λ group q. GroupDone blk group q) (fill_group c s.chunk_bytes blk) s.chunks
          (λ group q g_lt e. fill_group-Done blk group q b_lt g_lt e) p d in
      record { counted = omega (arith, all.counted); filled = Filled-at _ (omega arith) all.filled }

  populate-Filled :
      Filled (index_of W c.req_per_blocks 0) (populate_chunk_stripe c s.chunks s.chunk_bytes m₀)
  unfolding populate_chunk_stripe
  populate-Filled =
      Filled-at _ (omega arith)
        (for_range_zero (λ blk p. GroupDone blk 0 p) _ c.req_per_blocks
          (λ blk p b_lt d. fill_groups-Done blk p b_lt d) (record { chunk_id = 0; store = m₀ })
          (record {
            counted = omega arith;
            filled = record {
              written = λ blk req lt below. absurd (omega arith);
              outside = λ a far. refl;
            };
          })).filled

  pub populate-Stamped :
      (req blk : ℕ)
      → req < c.requests
      → blk < c.req_per_blocks
      → Stamped
          (populate_chunk_stripe c s.chunks s.chunk_bytes m₀)
          (block_ptr c s.chunks req blk)
          c.block_bytes
          req
          blk
  populate-Stamped req blk lt b_lt = rw (block_ptr_lem c s v z req blk lt b_lt).0 (
      populate-Filled.written blk req lt
        (omega (arith, index_of-lt W blk req c.req_per_blocks (omega (arith, z.rounded_up)) b_lt)))

  -- After `populate_chunk_stripe` the block that `block_ptr` finds for any request and block number
  -- carries its stamp, so that `verify_block` accepts it.
  pub populate-verify_block :
      (req blk : ℕ)
      → req < c.requests
      → blk < c.req_per_blocks
      → let store = populate_chunk_stripe c s.chunks s.chunk_bytes m₀ in
        verify_block store (block_ptr c s.chunks req blk) c.block_bytes req blk ≡ true
  populate-verify_block req blk lt b_lt =
      verify_block-Stamped _ _ c.block_bytes req blk (omega arith) (omega arith) (omega arith)
        (omega arith) (populate-Stamped req blk lt b_lt)

  -- `populate_chunk_stripe` leaves memory behind the store alone.
  pub populate-outside :
      (a : ℕ) → s.store_bytes ≤ a → populate_chunk_stripe c s.chunks s.chunk_bytes m₀ a ≡ m₀ a
  populate-outside a far = populate-Filled.outside a far
