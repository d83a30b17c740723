-- ===== src/Driver/Released.antt =====
-- The memory and the device file at the returns of `main` (src/main.cpp).
use mio_xcena.Base.{
  ℕ, ℤ, pos, negsuc, ◌≡◌, refl, ◌⊎◌, inl, inr, Bool, true, false, Option, none, some, List,
  if◌then◌else◌, if_both, ap, sym,
}
use mio_xcena.Driver.{Cfg}
use mio_xcena.Driver.Prefetch.{Prefetcher}
use mio_xcena.Driver.Launch.{
  Plan, World, Exit, System, Held, nothing, devdax_map, numa_pages, heap, misused, with_memory,
  allocated, map_device, memory_size, is_some, allocate_node, allocate, check_node, after_set,
  after_save, set_up, launch_plan, launch, leave, give_back, check_options, node_exists, free_for,
  free,
}

-- No memory is held and the device is closed.
abbrev pub IsClean : {Register : Type 0} → World Register → Type 0
IsClean w = (w.memory ≡ nothing) × (w.devdax_open ≡ false)

module _ {Double Register : Type 0} (s : System Register) (c : Cfg Double) where
  abbrev LeavesClean : Exit Register → Type 0
  LeavesClean e = IsClean e.world

  -- The ways to run in which every block goes back to where it came from: on a device, or on a node
  -- without huge pages and with a result file that opens.
  abbrev pub GivesBack : Type 0
  GivesBack = (is_some c.devdax_path ≡ true) ⊎ ((c.use_hugepage ≡ false) × (s.fopen_ok ≡ true))

  device-IsClean :
      (w : World Register) (f : Held → Held)
      → w.memory ≡ devdax_map
      → (b : Bool) → b ≡ true
      → IsClean (give_back s c b f w)
  device-IsClean w f mapped true e = rw mapped (refl, refl)
  device-IsClean w f mapped false e = cc

  map_device-IsClean :
      (p : Plan) (b : Bool) (w : World Register)
      → is_some c.devdax_path ≡ true
      → IsClean w
      → IsClean (map_device s c p b w).world
  unfolding with_memory
  map_device-IsClean p false w device clean = clean
  map_device-IsClean p true w device clean =
      if_both LeavesClean (s.mmap_ok (memory_size p) c.devdax_offset) _ _
        (if_both LeavesClean s.fopen_ok _ _
          (device-IsClean _ (free_for s c c.membind_node) refl _ device)
          (device-IsClean _ free refl _ device))
        (clean.0, refl)

  freed-IsClean :
      (w : World Register) (b : Bool) (path : Option (List ℕ)) (m : Held) (node : ℤ)
      → path ≡ none
      → b ≡ true
      → free_for s c node m ≡ nothing
      → w.devdax_open ≡ false
      → IsClean
          (if b
            then leave s c 0
                (give_back s c (is_some path) (free_for s c node) (record w { memory = m }))
            else leave s c 1 (give_back s c (is_some path) free (record w { memory = m }))).world
  freed-IsClean w true none m node e opens freed closed = (freed, closed)
  freed-IsClean w false none m node e opens freed closed = cc
  freed-IsClean w b (some a) m node e opens freed closed = cc

  allocated-IsClean :
      (b : Bool) (m : Held) (w : World Register)
      → c.devdax_path ≡ none
      → s.fopen_ok ≡ true
      → free_for s c c.membind_node m ≡ nothing
      → IsClean w
      → IsClean (allocated s c b m w).world
  unfolding with_memory
  allocated-IsClean true m w device opens freed clean =
      freed-IsClean w s.fopen_ok c.devdax_path m c.membind_node device opens freed (clean.1)
  allocated-IsClean false m w device opens freed clean = clean

  allocate_node-IsClean :
      (p : Plan) (hugepage : Bool) (node : ℤ) (w : World Register)
      → c.membind_node ≡ node
      → hugepage ≡ false
      → c.devdax_path ≡ none
      → s.fopen_ok ≡ true
      → IsClean w
      → IsClean (allocate_node s c p hugepage node w).world
  allocate_node-IsClean p hugepage (negsuc k) w bound small device opens clean =
      allocated-IsClean _ heap w device opens (rw bound refl) clean
  allocate_node-IsClean p true (pos n) w bound small device opens clean = cc
  allocate_node-IsClean p false (pos n) w bound small device opens clean =
      allocated-IsClean _ numa_pages w device opens (rw bound refl) clean

  allocate-IsClean :
      (p : Plan) (path : Option (List ℕ)) (w : World Register)
      → c.devdax_path ≡ path
      → GivesBack
      → IsClean w
      → IsClean (allocate s c p path w).world
  unfolding allocate
  allocate-IsClean p (some a) w same how clean =
      map_device-IsClean p (s.open_ok a) w (ap is_some same) clean
  allocate-IsClean p none w same (inl device) clean = let absent = sym (ap is_some same) in cc
  allocate-IsClean p none w same (inr (small, opens)) clean =
      allocate_node-IsClean p c.use_hugepage c.membind_node w refl small same opens clean

  check_node-IsClean :
      (p : Plan) (w : World Register) → GivesBack → IsClean w → IsClean (check_node s c p w).world
  unfolding check_node
  check_node-IsClean p w how clean =
      if_both LeavesClean (node_exists s c c.membind_node) _ _
        (allocate-IsClean p c.devdax_path w refl how clean) clean

  after_set-IsClean :
      (p : Plan) (done : Bool × Prefetcher Register) (w : World Register)
      → GivesBack
      → IsClean w
      → IsClean (after_set s c p done w).world
  after_set-IsClean p (true, f) w how clean = check_node-IsClean p _ how clean
  after_set-IsClean p (false, f) w how clean = clean

  after_save-IsClean :
      (p : Plan) (enable : Bool) (done : Bool × Prefetcher Register) (w : World Register)
      → GivesBack
      → IsClean w
      → IsClean (after_save s c p enable done w).world
  after_save-IsClean p enable (true, f) w how clean = after_set-IsClean p _ w how clean
  after_save-IsClean p enable (false, f) w how clean = clean

  set_up-IsClean :
      (p : Plan) (prefetch : Option Bool) (w : World Register)
      → GivesBack
      → IsClean w
      → IsClean (set_up s c p prefetch w).world
  set_up-IsClean p none w how clean = check_node-IsClean p w how clean
  set_up-IsClean p (some enable) w how clean = after_save-IsClean p enable _ w how clean

  launch_plan-IsClean :
      (p : Option Plan) (w : World Register)
      → GivesBack
      → IsClean w
      → IsClean (launch_plan s c p w).world
  launch_plan-IsClean none w how clean = clean
  launch_plan-IsClean (some p) w how clean = set_up-IsClean p c.prefetch_option w how clean

  -- Whatever fails, `main` returns with its memory given back to where it came from and the device
  -- closed, when it works on a device, or without huge pages if the result file can be opened.
  pub launch-releases : (w : World Register) → GivesBack → IsClean w → IsClean (launch s c w).world
  unfolding launch
  launch-releases w how clean = launch_plan-IsClean (check_options s c) w how clean

  -- What happens otherwise, without huge pages: pages of a node that have been allocated are given to
  -- `free` when the result file cannot be opened.
  pub launch-misuses :
      (w : World Register) (p : Plan) (n : ℕ)
      → check_options s c ≡ some p
      → c.prefetch_option ≡ none
      → c.devdax_path ≡ none
      → c.membind_node ≡ pos n
      → c.use_hugepage ≡ false
      → node_exists s c (pos n) ≡ true
      → s.numa_alloc_ok (memory_size p) (pos n) ≡ true
      → s.fopen_ok ≡ false
      → ((launch s c w).code ≡ 1) × ((launch s c w).world.memory ≡ misused)
  unfolding launch check_node allocate with_memory
  launch-misuses w p n plan quiet device bound small node pages file =
      rw (plan, quiet, bound, node, device, small, pages, file) (refl, refl)
