-- ===== src/Plain/Clean.antt =====
-- `run_one_sweep` (custom-test/test2.c) leaves no thread and no memory behind.
use mio_xcena.Base.{
  ℕ, zero, suc, ◌+◌, ◌-◌, ◌<◌, ◌≤◌, ◌^◌, ◌≡◌, refl, Bool, true, false, ◌&&◌, if◌then◌else◌, leb,
  ltb, Bool-cases, inl, inr, some, List, [], ◌∷◌, ◌++◌, arith,
}
use mio_xcena.Monitor.{
  Handle, scratch, threads, args, gate, Event, acquire, release, open_gate, join, free_if,
  acquire_if, watch, fresh, Ends, IsClean,
}
use mio_xcena.Monitor.Steps.{
  watch-then, watch-next, holding, World, view, put, open_for_all, join_first, release_scratch,
  then-Ends, next-Ends,
}
use mio_xcena.Plain.Resources.{
  Setup, Reader, Created, create_readers, join_all, join_and_free, free_rest, join_fail, sweep_run,
}
use mio_xcena.Plain.Created.{IsCreated, world, create_readers-IsCreated}

-- Readers `i, ..., n - 1` are joined.
join_all-accepted :
    (h : Handle) (k left i n : ℕ) (s : ℕ → Bool)
    → i + left ≡ n
    → watch h k
        (join_all left i)
        (view h k (record { low = i; high = n; is_open = true; buffers = s }))
      ≡ some (view h k (record { low = n; high = n; is_open = true; buffers = s }))
unfolding watch join_all
join_all-accepted h k zero i n s e = let e' : i ≡ n = omega arith in rw e' refl
join_all-accepted h k (suc left) i n s e =
    let w : World = record { low = i; high = n; is_open = true; buffers = s } in
    watch-next h k (join i) _ (view h k w) _ _ (join_first h k w (omega arith) refl)
      (join_all-accepted h k left (i + 1) n s (omega arith))

-- The buffers of the readers from `i` on.
abbrev above : (ℕ → Bool) → ℕ → ℕ → Bool
above s i j = leb i j && s j

put-above :
    (h : Handle) (s : ℕ → Bool) (i : ℕ)
    → holding (put (above s i) i false) h ≡ holding (above s (i + 1)) h
put-above h s i = ground arith

-- The buffer of reader `i`, which does not run, is the first one left.
release_above :
    (h : Handle) (k i low high : ℕ) (o : Bool) (s : ℕ → Bool)
    → (leb low i && ltb i high) ≡ false
    → watch h k
        (free_if (s i) (scratch i))
        (view h k (record { low = low; high = high; is_open = o; buffers = above s i }))
      ≡ some (view h k (record { low = low; high = high; is_open = o; buffers = above s (i + 1) }))
release_above h k i low high o s e =
    let same : above s i i ≡ s i = ground arith in
    let w : World = record { low = low; high = high; is_open = o; buffers = above s i } in
    rw (← same, ← put-above h s i) (release_scratch h k i w e)

join_and_free-accepted :
    (h : Handle) (k left i n : ℕ) (s : ℕ → Bool)
    → i + left ≡ n
    → watch h k
        (join_and_free s left i)
        (view h k (record { low = i; high = n; is_open = true; buffers = above s i }))
      ≡ some (view h k (record { low = n; high = n; is_open = true; buffers = above s n }))
unfolding watch join_and_free
join_and_free-accepted h k zero i n s e = let e' : i ≡ n = omega arith in rw e' refl
join_and_free-accepted h k (suc left) i n s e =
    let w : World = record { low = i; high = n; is_open = true; buffers = above s i } in
    watch-next h k (join i) _ (view h k w) _ _ (join_first h k w (omega arith) refl) (
      watch-then h k (free_if (s i) (scratch i)) _ _ _ _
        (release_above h k i (i + 1) n true s (ground arith))
        (join_and_free-accepted h k left (i + 1) n s (omega arith)))

free_rest-accepted :
    (h : Handle) (k left i high n : ℕ) (s : ℕ → Bool)
    → i + left ≡ n
    → watch h k
        (free_rest s left i)
        (view h k (record { low = high; high = high; is_open = true; buffers = above s i }))
      ≡ some (view h k (record { low = high; high = high; is_open = true; buffers = above s n }))
unfolding watch free_rest
free_rest-accepted h k zero i high n s e = let e' : i ≡ n = omega arith in rw e' refl
free_rest-accepted h k (suc left) i high n s e =
    watch-then h k (free_if (s i) (scratch i)) _ _ _ _
      (release_above h k i high high true s (ground arith))
      (free_rest-accepted h k left (i + 1) high n s (omega arith))

holding-above : (h : Handle) (s : ℕ → Bool) → holding (above s 0) h ≡ holding s h
holding-above h s = ground arith

holding-none :
    (h : Handle) (s : ℕ → Bool) → ((j : ℕ) → s j ≡ false) → holding s h ≡ holding (λ _. false) h
holding-none h s e = elim h as (λ g. holding s g ≡ holding (λ _. false) g) [
  | scratch i ↦ e i
  | _ ↦ refl
]

-- The gate and the arrays are released when no buffer is left.
last-Ends :
    (h : Handle) (k high : ℕ) (s : ℕ → Bool)
    → ((j : ℕ) → s j ≡ false)
    → Ends (
        watch h k
          (release gate ∷ release threads ∷ release args ∷ [])
          (view h k (record { low = high; high = high; is_open = true; buffers = s })))
unfolding watch
last-Ends h k high s e = rw (holding-none h s e) (ground arith)

abbrev last : List Event
last = release gate ∷ release threads ∷ release args ∷ []

-- What follows when no reader runs and the buffers from `i` on are left.
rest-Ends :
    (h : Handle) (k i high requests : ℕ) (s : ℕ → Bool)
    → i ≤ requests
    → ((j : ℕ) → requests ≤ j → s j ≡ false)
    → Ends (
        watch h k
          (free_rest s (requests - i) i ++ last)
          (view h k (record { low = high; high = high; is_open = true; buffers = above s i })))
rest-Ends h k i high requests s le beyond =
    then-Ends h k (free_rest s (requests - i) i) last _ _
      (free_rest-accepted h k (requests - i) i high requests s (omega arith))
      (last-Ends h k high (above s requests) (λ j. ground (arith, beyond j)))

failed-Ends :
    (h : Handle) (k requests created : ℕ) (s : ℕ → Bool)
    → created ≤ requests
    → ((j : ℕ) → requests ≤ j → s j ≡ false)
    → Ends (
        watch h k
          (join_fail requests created s)
          (view h k (record { low = 0; high = created; is_open = true; buffers = s })))
unfolding join_fail
failed-Ends h k requests created s le beyond = rw (← holding-above h s) (
    then-Ends h k (join_and_free s created 0) _ _ _
      (join_and_free-accepted h k created 0 created s (omega arith))
      (rest-Ends h k created created requests s le beyond))

complete-Ends :
    (h : Handle) (k requests : ℕ) (s : ℕ → Bool)
    → ((j : ℕ) → requests ≤ j → s j ≡ false)
    → Ends (
        watch h k
          (open_gate requests ∷ (join_all requests 0 ++ join_fail requests 0 s))
          (view h k (world s requests)))
unfolding join_fail join_and_free
complete-Ends h k requests s beyond =
    next-Ends h k (open_gate requests) _ _ _ (open_for_all h k (world s requests)) (
      then-Ends h k (join_all requests 0) _ _ _
        (join_all-accepted h k requests 0 requests s (omega arith))
        (rw (← holding-above h s) (rest-Ends h k 0 requests requests s (omega arith) beyond)))

-- After the arrays and the gate are there.
run-Ends :
    (h : Handle) (k requests : ℕ) (c : Created)
    → IsCreated h k requests (world (λ _. false) 0) c
    → Ends (
        watch h k
          (c.events
            ++ (if c.complete
                then open_gate requests ∷ (join_all requests 0 ++ join_fail requests 0 c.buffers)
                else join_fail requests c.created c.buffers))
          (view h k (world (λ _. false) 0)))
run-Ends h k requests c d = then-Ends h k c.events _ _ _ d.accepted (elim (Bool-cases c.complete) [
  | inl e ↦ rw (e, d.full e) (complete-Ends h k requests c.buffers d.none_beyond)
  | inr e ↦ rw e (failed-Ends h k requests c.created c.buffers d.bounded d.none_beyond)
])

arrays-accepted :
    (h : Handle) (k : ℕ)
    → watch h k (acquire threads ∷ acquire args ∷ acquire gate ∷ []) fresh
      ≡ some (view h k (world (λ _. false) 0))
unfolding watch
arrays-accepted h k = ground arith

no_arrays-Ends :
    (h : Handle) (k : ℕ) (s : Setup)
    → Ends (
        watch h k
          (acquire_if s.threads threads
            ++ (acquire_if s.args args ++ (free_if s.threads threads ++ free_if s.args args)))
          fresh)
unfolding watch
no_arrays-Ends h k s = ground arith

-- For fewer than 2^32 requests, whichever of the allocations and thread creations of
-- `run_one_sweep` of test2.c fail: it opens the gate for as many workers as it has started, joins every thread
-- that it has started once, after it has opened the gate, frees no memory that a running thread
-- uses, and frees all that it has allocated once.
pub sweep_run-IsClean :
    (copy_to_dst : Bool) (requests : ℕ) (s : Setup) (reader : ℕ → Reader)
    → requests < 2 ^ 32
    → IsClean (sweep_run copy_to_dst requests s reader).events
unfolding sweep_run
sweep_run-IsClean copy_to_dst requests s reader small h k =
    elim (Bool-cases (s.threads && s.args)) [
      | inr e ↦ rw e (no_arrays-Ends h k s)
      | inl e ↦ rw e (
          then-Ends h k (acquire threads ∷ acquire args ∷ acquire gate ∷ []) _ fresh _
            (arrays-accepted h k)
            (run-Ends h k requests (create_readers copy_to_dst reader requests 0 0 (λ _. false)) (
              create_readers-IsCreated h k copy_to_dst reader requests 0 requests (λ _. false)
                (omega arith) small (λ j le. refl))))
    ]
